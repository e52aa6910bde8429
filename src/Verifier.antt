-- ===== src/Verifier.antt =====
-- crates/svc-auth/src/verifier.rs, and the claims of lib.rs: the resource servers' check of access
-- tokens, with its cache of signing keys and its list of revoked grants.
pub mod Revoked
pub mod Extract
pub mod Build
pub mod Fixture
mod Tests
use drone_dispatch.Clock.{seconds}
use drone_dispatch.Common.{
  none, some, true, false, Bool, ℕ, List, Option, any, and_then, if◌then◌else◌, is_none_or, ◌&&◌,
  ◌++◌, ◌∷◌, not, leb, [], ◌-◌, ◌||◌, ◌==◌, is_some_and,
}
use drone_dispatch.Common.Exec.{Exec, Result, ok_or, ◌>>=◌, ◌>>◌, ok, reject_if, err, gets, pure}
use drone_dispatch.Common.Int.{ℤ, pos, leb_ℤ, ◌-ℤ◌}
use drone_dispatch.Common.Table.{find}
use drone_dispatch.Text.{Text, same, split, text, contains}
use drone_dispatch.Text.Ascii.{eq_ignore_ascii_case}

pub record AccessClaims : Type 0 where
  pub iss : Text
  pub sub : Text
  pub aud : Text
  pub client_id : Text
  pub scope : Text
  pub iat : ℤ
  pub exp : ℤ
  pub jti : Text
  pub gid : Text
  pub acr : Option Text
  pub amr : List Text
  pub auth_time : Option ℤ

unfoldable pub has_scope : AccessClaims → Text → Bool
has_scope claims scope = any (λ s. same s scope) (split (λ c. c == 32) claims.scope)

unfoldable pub has_fresh_mfa : AccessClaims → ℤ → ℤ → Bool
has_fresh_mfa claims now max_age_secs =
    any (λ m. same m (text "hwk")) claims.amr
    && is_some_and claims.auth_time (λ t. leb_ℤ (now -ℤ t) max_age_secs)

-- The messages inside the errors are not kept.
pub data VerifyError : Type 0 where
  malformed wrong_type unknown_key invalid revoked keys_unavailable : VerifyError

abbrev pub reload_cooldown : ℕ
reload_cooldown = seconds 30

abbrev pub max_key_age : ℕ
max_key_age = seconds 3600

-- A `DecodingKey` is a text here.
pub record KeyCache : Type 0 where
  pub by_kid : List (Text × Text)
  pub loaded_at : Option ℕ

-- `loads` is false for a fixed key set (`http` is `None`).
pub record TokenVerifier : Type 0 where
  pub issuer : Text
  pub audience : Text
  pub loads : Bool
  pub keys : KeyCache
  pub revoked_grants : List Text

abbrev pub Check : Type 0 → Type 0
Check A = Exec VerifyError TokenVerifier A

-- One key of a JWK set: its id, and the key that the crate makes of it, if it is usable.
pub record Jwk : Type 0 where
  pub kid : Option Text
  pub decoding_key : Option Text

-- The key of an id that occurs twice is the last one, so it stands first.
unfoldable pub index_keys : List Jwk → Result VerifyError (List (Text × Text))
index_keys [] = ok []
index_keys (jwk ∷ rest) =
    let indexed = index_keys rest in
    elim jwk.kid [
      | none ↦ indexed
      | some kid ↦ elim jwk.decoding_key [
        | none ↦ err keys_unavailable
        | some key ↦ elim indexed [ ok keys ↦ ok (keys ++ (kid, key) ∷ []) | err e ↦ err e ]
      ]
    ]

abbrev pub cached_key : Text → KeyCache → Option Text
cached_key kid cache = and_then (find (λ k. same k.0 kid) cache.by_kid) (λ k. some k.1)

-- The reply of the JWKS endpoint, or that it could not be had.
abbrev pub Fetched : Type 0
Fetched = Option (List Jwk)

abbrev pub with_keys : ℕ → List (Text × Text) → TokenVerifier → TokenVerifier
with_keys now keys v = record v { keys = record { by_kid = keys; loaded_at = some now } }

unfoldable pub reload : ℕ → Fetched → Check (Unit {0})
reload now fetched v = if not v.loads then (ok tt, v) else elim fetched [
  | none ↦ (err keys_unavailable, v)
  | some jwks ↦ elim (index_keys jwks) [
    | err e ↦ (err e, v)
    | ok keys ↦ (ok tt, with_keys now keys v)
  ]
]

-- `elapsed()` stops at zero, as `-` does.
abbrev pub is_stale : ℕ → KeyCache → Bool
is_stale now cache = is_none_or cache.loaded_at (λ at. leb max_key_age (now - at))

abbrev pub may_reload : ℕ → TokenVerifier → Bool
may_reload now v = v.loads && is_none_or v.keys.loaded_at (λ at. leb reload_cooldown (now - at))

-- `self.cached_key(kid).await.ok_or(VerifyError::UnknownKey)`
abbrev pub look_up : Text → Check Text
look_up kid v = ok_or (cached_key kid v.keys) unknown_key v

-- A stale key stays in use while the reload fails.
abbrev pub reload_or :
    Text
    → Text
    → Result VerifyError (Unit {0}) × TokenVerifier
    → Result VerifyError Text × TokenVerifier
reload_or kid key (ok u, v) = look_up kid v
reload_or kid key (err e, v) = (ok key, v)

unfoldable pub key : ℕ → Fetched → Text → Check Text
unfolding reload
key now fetched kid v = elim (cached_key kid v.keys) [
  | some k ↦
      if not (is_stale now v.keys) || not (may_reload now v)
      then (ok k, v)
      else reload_or kid k (reload now fetched v)
  | none ↦ if may_reload now v then (reload now fetched >> look_up kid) v else (err unknown_key, v)
]

-- The part of a JWT's header that is looked at.
pub record Header : Type 0 where
  pub is_es256 : Bool
  pub typ : Option Text
  pub kid : Option Text

-- What jsonwebtoken gives: the header, and the claims if the signature, issuer and audience check out
-- against a key, and the token is not expired by more than the leeway of 30 seconds at the crate's clock.
pub record Jwt : Type 0 where
  pub decode_header : Text → Option Header
  pub decode : (issuer audience key token : Text) → Option AccessClaims

abbrev pub unrevoked : AccessClaims → Check AccessClaims
unrevoked claims = do
  listed ← gets (λ v. contains v.revoked_grants claims.gid)
  reject_if listed revoked
  pure claims

module _ (jwt : Jwt) where
  unfoldable pub verify : ℕ → Fetched → Text → Check AccessClaims
  unfolding key
  verify now fetched token = do
    header ← ok_or (jwt.decode_header token) malformed
    reject_if
        (not header.is_es256
          || not (is_some_and header.typ (λ typ. eq_ignore_ascii_case typ (text "at+jwt"))))
        wrong_type
    kid ← ok_or header.kid unknown_key
    k ← key now fetched kid
    decoded ← gets (λ v. jwt.decode v.issuer v.audience k token)
    claims ← ok_or decoded invalid
    unrevoked claims

unfoldable pub revoke_grant : Text → TokenVerifier → TokenVerifier
revoke_grant grant_id v = record v { revoked_grants = v.revoked_grants ++ grant_id ∷ [] }

-- A call of the verifier.
pub data Event : Type 0 where
  verified : ℕ → Fetched → Text → Event
  grant_revoked : Text → Event

module _ (jwt : Jwt) where
  unfoldable pub step : TokenVerifier → Event → TokenVerifier
  step v (verified now fetched token) = (verify jwt now fetched token v).1
  step v (grant_revoked grant_id) = revoke_grant grant_id v

  unfoldable pub run : TokenVerifier → List Event → TokenVerifier
  unfolding step
  run v [] = v
  run v (e ∷ rest) = run (step v e) rest
