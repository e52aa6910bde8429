-- ===== src/Verifier/Revoked.antt =====
-- Revoked grants and rotated keys at the resource servers.
use mathlib.Core.Bool.{false≢true}
use drone_dispatch.Common.{
  ◌≡◌, none, some, true, false, refl, arith, [], ◌∷◌, ℕ, ◌∙◌, List, ◌+◌, ◌<◌, ◌≢◌, ◌≤◌,
  Option-cases, inl, inr, any, ap, sym, ◌++◌,
}
use drone_dispatch.Common.Exec.{ok, ok_or, ◌>>=◌}
use drone_dispatch.Common.Exec.Inversion.{bind-eq-ok}
use drone_dispatch.Common.Exec.Moves.{IsPreorder, Moves, moves_rules}
use drone_dispatch.Text.{contains, Text, same}
use drone_dispatch.Text.Equality.{same_self}
use drone_dispatch.Verifier.{
  reload, key, verify, revoke_grant, step, run, TokenVerifier, Jwt, Fetched, Event, Jwk, verified,
  AccessClaims, grant_revoked, max_key_age, reload_cooldown, cached_key, index_keys, unknown_key,
  with_keys, Check, unrevoked,
}

-- The list of revoked grants stays as it is.
record SameRevoked (v v' : TokenVerifier) : Type 0 where
  same_list : v'.revoked_grants ≡ v.revoked_grants

SameRevoked-preorder : IsPreorder SameRevoked
SameRevoked-preorder = record {
  same = λ v. record { same_list = refl };
  chain = λ a b c h k. record { same_list = k.same_list ∙ h.same_list };
}

key-SameRevoked :
    (now : ℕ) (fetched : Fetched) (kid : Text) → Moves SameRevoked (key now fetched kid)
unfolding key reload
key-SameRevoked now fetched kid = record { along = λ v. record { same_list = ground arith } }

verify-SameRevoked :
    (jwt : Jwt) (now : ℕ) (fetched : Fetched) (token : Text)
    → Moves SameRevoked (verify jwt now fetched token)
unfolding verify
verify-SameRevoked jwt now fetched token =
    search (moves_rules, SameRevoked-preorder, key-SameRevoked) depth 12

any-append :
    (gid : Text) (list : List Text) (other : Text)
    → any (λ s. same s gid) list ≡ true
    → any (λ s. same s gid) (list ++ other ∷ []) ≡ true
any-append gid [] other h = ground arith
any-append gid (s ∷ list) other h = ground (arith, any-append gid list other)

pub listed_last : (gid : Text) (list : List Text) → any (λ s. same s gid) (list ++ gid ∷ []) ≡ true
listed_last gid [] = ground (arith, same_self gid)
listed_last gid (s ∷ list) = ground (arith, listed_last gid list)

pub step-contains :
    (jwt : Jwt) (e : Event) (gid : Text) (v : TokenVerifier)
    → contains v.revoked_grants gid ≡ true
    → contains (step jwt v e).revoked_grants gid ≡ true
unfolding step revoke_grant contains
step-contains jwt (verified now fetched token) gid v h =
    ground (arith, h, ((verify-SameRevoked jwt now fetched token).along v).same_list)
step-contains jwt (grant_revoked other) gid v h = any-append gid v.revoked_grants other h

pub run-contains :
    (jwt : Jwt) (events : List Event) (gid : Text) (v : TokenVerifier)
    → contains v.revoked_grants gid ≡ true
    → contains (run jwt v events).revoked_grants gid ≡ true
unfolding run
run-contains jwt [] gid v h = h
run-contains jwt (e ∷ rest) gid v h =
    run-contains jwt rest gid (step jwt v e) (step-contains jwt e gid v h)

-- The claims that an action returns are not of a grant on the list.
record Accepts (m : Check AccessClaims) : Type 0 where
  unlisted :
      (v v' : TokenVerifier) (claims : AccessClaims)
      → m v ≡ (ok claims, v')
      → contains v'.revoked_grants claims.gid ≡ false

Accepts-bind :
    {A : Type 0} (m : Check A) (f : A → Check AccessClaims)
    → ((a : A) → Accepts (f a))
    → Accepts (m >>= f)
Accepts-bind m f k = record {
  unlisted = λ v v' claims e.
      let (a, known, rest) = bind-eq-ok m f v e in (k a).unlisted (m v).1 v' claims rest;
}

Accepts-unrevoked : (claims : AccessClaims) → Accepts (unrevoked claims)
Accepts-unrevoked claims = record { unlisted = λ v v' c e. ground arith }

verify-Accepts :
    (jwt : Jwt) (now : ℕ) (fetched : Fetched) (token : Text)
    → Accepts (verify jwt now fetched token)
unfolding verify
verify-Accepts jwt now fetched token = search (Accepts-bind, Accepts-unrevoked) depth 12

-- No token of a grant on the list is accepted.
pub listed_token_rejected :
    (jwt : Jwt) (gid token : Text) (now : ℕ) (fetched : Fetched) (v v' : TokenVerifier)
    (claims : AccessClaims)
    → contains v.revoked_grants gid ≡ true
    → verify jwt now fetched token v ≡ (ok claims, v')
    → claims.gid ≢ gid
unfolding contains
listed_token_rejected jwt gid token now fetched v v' claims listed e p =
    let kept : v'.revoked_grants ≡ v.revoked_grants =
      ap (λ r. r.1.revoked_grants) (sym e)
      ∙ ((verify-SameRevoked jwt now fetched token).along v).same_list in
    false≢true (
      sym ((verify-Accepts jwt now fetched token).unlisted v v' claims e)
      ∙ ap (contains v'.revoked_grants) p
      ∙ ap (λ l. contains l gid) kept
      ∙ listed)

-- Once a grant is revoked, whatever the verifier is asked and whichever keys it loads, it accepts no
-- token of that grant.
pub revoked_token_rejected :
    (jwt : Jwt) (events : List Event) (gid token : Text) (now : ℕ) (fetched : Fetched)
    (v v' : TokenVerifier) (claims : AccessClaims)
    → verify jwt now fetched token (run jwt (revoke_grant gid v) events) ≡ (ok claims, v')
    → claims.gid ≢ gid
unfolding revoke_grant contains
revoked_token_rejected jwt events gid token now fetched v v' claims e =
    listed_token_rejected jwt gid token now fetched (run jwt (revoke_grant gid v) events) v' claims
      (run-contains jwt events gid (revoke_grant gid v) (listed_last gid v.revoked_grants)) e

-- Once the keys are an hour old and can be loaded again, a key that the new set lacks is unknown, and one
-- that it has is the new one; when the set cannot be had, the cached key stays in use.
pub stale_key_reloaded :
    (now at : ℕ) (jwks : List Jwk) (keys : List (Text × Text)) (kid old : Text) (v : TokenVerifier)
    → v.loads ≡ true
    → v.keys.loaded_at ≡ some at
    → at + max_key_age ≤ now
    → cached_key kid v.keys ≡ some old
    → index_keys jwks ≡ ok keys
    → (key now (some jwks) kid v
        ≡ (ok_or (cached_key kid (record { by_kid = keys; loaded_at = some now })) unknown_key)
            (with_keys now keys v))
      × (key now none kid v ≡ (ok old, v))
unfolding key reload
stale_key_reloaded now at jwks keys kid old v loads loaded old_enough cached indexed =
    ground (arith, loads, loaded, old_enough, cached, indexed)

-- Within 30 seconds of a load, no key id makes the verifier load again, and a key it lacks is unknown.
pub cooldown_holds :
    (now at : ℕ) (fetched : Fetched) (kid : Text) (v : TokenVerifier)
    → v.keys.loaded_at ≡ some at
    → now < at + reload_cooldown
    → key now fetched kid v ≡ (ok_or (cached_key kid v.keys) unknown_key) v
unfolding key
cooldown_holds now at fetched kid v loaded recent = elim (Option-cases (cached_key kid v.keys)) [
  | inl missing ↦ ground (arith, loaded, recent, missing)
  | inr (k, cached) ↦ ground (arith, loaded, recent, cached)
]
