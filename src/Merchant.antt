-- ===== src/Merchant.antt =====
-- services/merchant-service/src/api.rs: the merchant API. This file has its state, the extractor that
-- each operation starts with, and the check of membership.
pub mod Schema
pub mod Menu
pub mod Rows
pub mod Edit
pub mod Columns
pub mod Requests
pub mod Access
pub mod Changes
pub mod Positions
pub mod Integrity
pub mod Lookup
pub mod RoundTrip
pub mod Live
pub mod Fixture
mod Tests
pub mod Isolation
use drone_dispatch.Common.{
  ℕ, Bool, not, ◌&&◌, Option, none, some, List, if◌then◌else◌, ◌==◌, is_some, String,
}
use drone_dispatch.Common.Exec.{
  Exec, Result, ok, err, lift, gets, reject_if, ok_or, ◌>>=◌, ◌>>◌, pure,
}
use drone_dispatch.Common.Int.{ℤ}
use drone_dispatch.Common.Table.{find}
use drone_dispatch.Merchant.Schema.{MerchantDb, Member}
use drone_dispatch.Text.{Text, text}
use drone_dispatch.Verifier.{AccessClaims, Jwt, Fetched}
use drone_dispatch.Verifier.Extract.{
  Problem, problem, AuthConfig, AuthRejection, authenticated, require_scope, into_response,
}

-- What the crates and Postgres give: a JSON value with the operators `->>`, `->` and `?` and the casts
-- of the UPDATE, the order of texts in the database's collation, and texts read as UUIDs.
pub record Outside : Type 1 where
  pub Value : Type 0
  pub field_text : Value → Text → Option Text
  pub field : Value → Text → Option Value
  pub has_key : Value → Text → Bool
  pub to_bigint : Text → Option ℤ
  pub to_integer : Text → Option ℤ
  pub to_boolean : Text → Option Bool
  pub name_le : Text → Text → Bool
  pub parse_uuid : Text → Option ℕ
  pub to_lowercase : Text → Text
  pub from_header : Text → Option Text

-- `AppState`.
pub record Service : Type 0 where
  pub db : MerchantDb
  pub auth : AuthConfig

abbrev pub Api : Type 0 → Type 0
Api A = Exec Problem Service A

abbrev pub bad_request : String → String → Problem
bad_request title reason = record {
  status = 400;
  title = title;
  reason = some reason;
  www_authenticate = none;
}

abbrev pub database_error : Problem
database_error = record {
  status = 500;
  title = "Database error";
  reason = none;
  www_authenticate = none;
}

abbrev pub invalid_subject : Problem
invalid_subject = record {
  status = 401;
  title = "Invalid subject";
  reason = some "INVALID_TOKEN";
  www_authenticate = none;
}

abbrev pub access_denied : Problem
access_denied = record {
  status = 403;
  title = "You are not a member of this business";
  reason = some "BUSINESS_ACCESS_DENIED";
  www_authenticate = none;
}

-- What a request brings besides its path and body, with the moment and the outcome of a key fetch.
pub record Head : Type 0 where
  pub now : ℕ
  pub fetched : Fetched
  pub authorization : Option Text

abbrev pub is_member : ℕ → ℕ → Member → Bool
is_member business user m = m.business_id == business && m.user_sub == user

scoped :
    Result AuthRejection AccessClaims × AuthConfig → Result AuthRejection AccessClaims × AuthConfig
scoped (ok claims, config) = elim (require_scope claims (text "merchant")) [
  | ok u ↦ (ok claims, config)
  | err e ↦ (err e, config)
]
scoped (err e, config) = (err e, config)

module _ (jwt : Jwt) (outside : Outside) where
  open outside use {parse_uuid, from_header}

  answered :
      Service
      → Result AuthRejection AccessClaims × AuthConfig
      → Result Problem AccessClaims × Service
  unfolding scoped
  answered s (ok claims, config) = (ok claims, record s { auth = config })
  answered s (err e, config) = (err (into_response from_header e), record s { auth = config })

  -- `Merchant::from_request_parts`
  unfoldable pub merchant : Head → Api AccessClaims
  unfolding answered scoped
  merchant head s =
      answered s (scoped (authenticated jwt head.now head.fetched head.authorization s.auth))

  unfoldable pub user_id : AccessClaims → Api ℕ
  user_id claims = ok_or (parse_uuid claims.sub) invalid_subject

  unfoldable pub business_id : Text → Api ℕ
  business_id value =
      ok_or (parse_uuid value) (bad_request "Invalid business id" "INVALID_BUSINESS_ID")

  unfoldable pub member : AccessClaims → ℕ → Api (Unit {0})
  unfolding user_id
  member claims business = do
    user ← user_id claims
    known ← gets (λ s. is_some (find (is_member business user) s.db.members))
    reject_if (not known) access_denied
