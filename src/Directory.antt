-- ===== src/Directory.antt =====
-- services/auth-service/src/grpc.rs: the user directory and the list of revoked grants.
pub mod Revocations
mod Tests
use drone_dispatch.Clock.{seconds, second}
use drone_dispatch.Common.{
  ℕ, ◌+◌, ◌-◌, ◌/◌, ◌%◌, Bool, not, ◌&&◌, Option, none, some, List, [], ◌∷◌, map, String, leb, ◌==◌,
  is_some, is_some_and, any, take, and_then, if◌then◌else◌, unwrap_or,
}
use drone_dispatch.Common.Exec.{Result, ok, err}
use drone_dispatch.Common.Int.{ℤ}
use drone_dispatch.Common.Sorting.{order_by}
use drone_dispatch.Common.Table.{find, select, at}
use drone_dispatch.Db.{Db, User, Grant, PasskeyRow}
use drone_dispatch.Text.{Text}

-- `prost_types::Timestamp`
pub record Timestamp : Type 0 where
  pub seconds : ℕ
  pub nanos : ℕ

abbrev pub timestamp : ℕ → Timestamp
timestamp t = record { seconds = t / second; nanos = t % second }

-- The message `User` of the directory.
pub record UserMessage : Type 0 where
  pub sub : Text
  pub email : Text
  pub email_verified : Bool
  pub mfa_enrolled : Bool
  pub created_at : Timestamp
  pub disabled_at : Option Timestamp

pub data Status : Type 0 where
  invalid_argument not_found : String → Status

abbrev pub Reply : Type 0 → Type 0
Reply A = Result Status A

-- What the crates give: UUIDs as texts, and the instant of a Unix time, if `time` can represent it.
pub record Crates : Type 0 where
  pub parse_uuid : Text → Option ℕ
  pub uuid_text : ℕ → Text
  pub from_unix_timestamp : ℤ → Option ℕ

pub record RevokedGrant : Type 0 where
  pub grant_id : Text
  pub sub : Text
  pub revoked_at : Timestamp

abbrev pub max_revoked_grants : ℕ
max_revoked_grants = 1000

-- `filter_map`
parsed : (Text → Option ℕ) → List Text → List ℕ
parsed parse [] = []
parsed parse (t ∷ ts) = elim (parse t) [ none ↦ parsed parse ts | some id ↦ id ∷ parsed parse ts ]

abbrev pub revoked_time : Grant → ℕ
revoked_time g = unwrap_or g.revoked_at 0

abbrev pub is_revoked_since : ℕ → Grant → Bool
is_revoked_since since g = is_some_and g.revoked_at (λ at. leb since at)

module _ (crates : Crates) where
  open crates use {parse_uuid, uuid_text, from_unix_timestamp}

  -- The row of a user, with whether any passkey is the user's.
  abbrev pub user : Db → User → UserMessage
  user db u = record {
    sub = uuid_text u.id;
    email = u.email;
    email_verified = is_some u.email_verified_at;
    mfa_enrolled = any (λ (p : PasskeyRow). p.user_id == u.id) db.passkeys;
    created_at = timestamp u.created_at;
    disabled_at = and_then u.disabled_at (λ t. some (timestamp t));
  }

  unfoldable pub get_user : Text → Db → Reply UserMessage
  get_user sub db = elim (parse_uuid sub) [
    | none ↦ err (invalid_argument "sub must be a UUID")
    | some id ↦ elim (find (at (λ (u : User). u.id) id) db.users) [
      | none ↦ err (not_found "USER_NOT_FOUND")
      | some u ↦ ok (user db u)
    ]
  ]

  unfoldable pub batch_get_users : List Text → Db → Reply (List UserMessage)
  unfolding parsed
  batch_get_users subs db =
      let ids = parsed parse_uuid subs in
      ok (map (user db) (select (λ (u : User). any (λ id. id == u.id) ids) db.users))

  abbrev pub revoked_grant : Grant → RevokedGrant
  revoked_grant g = record {
    grant_id = uuid_text g.id;
    sub = uuid_text g.user_id;
    revoked_at = timestamp (revoked_time g);
  }

  -- The rows since a moment, in the order of their revocation.
  unfoldable pub revoked_since : ℕ → List Grant → List RevokedGrant
  revoked_since since grants = map revoked_grant (
      take max_revoked_grants (
        order_by (λ a b. leb (revoked_time a) (revoked_time b))
          (select (is_revoked_since since) grants)))

  -- `revoked_since` of the request is in seconds; without it, the list goes back an hour.
  unfoldable pub list_revoked_grants : (utc_now : ℕ) → Option ℤ → Db → Reply (List RevokedGrant)
  unfolding revoked_since
  list_revoked_grants utc_now none db = ok (revoked_since (utc_now - seconds 3600) db.grants)
  list_revoked_grants utc_now (some t) db = elim (from_unix_timestamp t) [
    | none ↦ err (invalid_argument "revoked_since is out of range")
    | some since ↦ ok (revoked_since since db.grants)
  ]
