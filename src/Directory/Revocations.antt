-- ===== src/Directory/Revocations.antt =====
-- A resource server that starts from the list of revoked grants knows every one of them.
use drone_dispatch.Verifier.{
  run, step, verify, revoke_grant, Event, grant_revoked, Jwt, TokenVerifier, Fetched, AccessClaims,
}
use drone_dispatch.Common.{
  ◌≡◌, ℕ, List, Bool, ◌<◌, any, map, true, arith, ◌∷◌, [], ◌≤◌, Bool-cases, inl, ◌-◌, some, none,
  ◌&&◌, leb, inr, ◌≢◌, take, take_all,
}
use drone_dispatch.Directory.{
  Crates, RevokedGrant, revoked_grant, revoked_since, list_revoked_grants, is_revoked_since,
  max_revoked_grants, ok, revoked_time,
}
use drone_dispatch.Text.{Text, same, contains}
use drone_dispatch.Common.Table.{count, at, find, select, find_narrow, find_sound, count_pos}
use drone_dispatch.Db.{Grant, Db}
use drone_dispatch.Text.Equality.{same_self, same_sound}
use drone_dispatch.Clock.{seconds}
use drone_dispatch.Verifier.Revoked.{run-contains, listed_last, listed_token_rejected}
use drone_dispatch.Common.Sorting.{order_by, length-order_by, count-order_by}
use drone_dispatch.Common.Table.Select.{length-select, count-select}

module _ (crates : Crates) where
  open crates use {uuid_text}

  abbrev pub names : Text → RevokedGrant → Bool
  names gid g = same g.grant_id gid

  count-named :
      (id : ℕ) (t : List Grant)
      → 0 < count (at (λ (g : Grant). g.id) id) t
      → any (names (uuid_text id)) (map (revoked_grant crates) t) ≡ true
  unfolding count
  count-named id [] h = absurd (omega arith)
  count-named id (g ∷ t) h = ground (arith, count-named id t, same_self (uuid_text id))

  -- Up to a thousand revocations fit into the reply.
  listed :
      (since id : ℕ) (grants : List Grant) (g : Grant)
      → count (is_revoked_since since) grants ≤ max_revoked_grants
      → find (at (λ (r : Grant). r.id) id) grants ≡ some g
      → is_revoked_since since g ≡ true
      → any (names (uuid_text id)) (revoked_since crates since grants) ≡ true
  unfolding revoked_since
  listed since id grants g few found recent =
      let by_id = at (λ (r : Grant). r.id) id in
      let both = λ (r : Grant). is_revoked_since since r && by_id r in
      let le = λ (a b : Grant). leb (revoked_time a) (revoked_time b) in
      let rows = select (is_revoked_since since) grants in
      let whole : take max_revoked_grants (order_by le rows) ≡ order_by le rows =
        take_all max_revoked_grants (order_by le rows)
          (omega (arith, length-order_by le rows, length-select (is_revoked_since since) grants)) in
      let there : find both grants ≡ some g =
        find_narrow by_id both grants g (λ r h. ground arith) found
          (ground (arith, recent, find_sound by_id grants found)) in
      rw whole (
        count-named id (order_by le rows) (
          omega (
            arith,
            count-order_by le by_id rows,
            count-select (is_revoked_since since) by_id grants,
            count_pos both both grants g (λ r h. h) there,
          )))

  abbrev pub told : List RevokedGrant → List Event
  told [] = []
  told (g ∷ rest) = grant_revoked g.grant_id ∷ told rest

  told-contains :
      (jwt : Jwt) (gid : Text) (list : List RevokedGrant) (v : TokenVerifier)
      → any (names gid) list ≡ true
      → contains (run jwt v (told list)).revoked_grants gid ≡ true
  unfolding run step revoke_grant contains
  told-contains jwt gid [] v h = absurd (ground arith)
  told-contains jwt gid (g ∷ rest) v h = elim (Bool-cases (same g.grant_id gid)) [
    | inl hit ↦
        run-contains jwt (told rest) gid (revoke_grant g.grant_id v)
          (rw (same_sound g.grant_id gid hit) (listed_last gid v.revoked_grants))
    | inr miss ↦ told-contains jwt gid rest (revoke_grant g.grant_id v) (ground (arith, miss, h))
  ]

  -- While at most a thousand grants were revoked in the last hour, a verifier that is told the grants of the
  -- list accepts no token of a grant that was revoked in the last hour.
  pub revoked_in_last_hour_rejected :
      (jwt : Jwt) (utc_now id : ℕ) (db : Db) (g : Grant) (list : List RevokedGrant) (token : Text)
      (now : ℕ) (fetched : Fetched) (v v' : TokenVerifier) (claims : AccessClaims)
      → count (is_revoked_since (utc_now - seconds 3600)) db.grants ≤ max_revoked_grants
      → list_revoked_grants crates utc_now none db ≡ ok list
      → find (at (λ (r : Grant). r.id) id) db.grants ≡ some g
      → is_revoked_since (utc_now - seconds 3600) g ≡ true
      → verify jwt now fetched token (run jwt v (told list)) ≡ (ok claims, v')
      → claims.gid ≢ uuid_text id
  unfolding list_revoked_grants
  revoked_in_last_hour_rejected jwt utc_now id db g list token now fetched v v' claims few reply
        found recent e =
      let whole : revoked_since crates (utc_now - seconds 3600) db.grants ≡ list =
        ground (arith, reply) in
      listed_token_rejected jwt (uuid_text id) token now fetched (run jwt v (told list)) v' claims
        (told-contains jwt (uuid_text id) list v
          (rw whole at (listed (utc_now - seconds 3600) id db.grants g few found recent)))
        e
