-- ===== src/Oauth.antt =====
-- services/auth-service/src/oauth.rs: the token endpoint and revocation. A transaction reads one time,
-- and `FOR UPDATE` lets no other transaction between its statements.
pub mod Metadata
pub mod Exchange
pub mod Authorize
pub mod Refresh
pub mod Endpoint
pub mod Revocation
pub mod Success
pub mod Finality
pub mod Invariant
pub mod Preservation
pub mod Reuse
pub mod Lifecycle
pub mod History
pub mod Fixture
mod Tests
use drone_dispatch.Clock.{Clock, seconds, days, rounded_seconds}
use drone_dispatch.Common.{
  ℕ, ◌+◌, ◌/◌, ◌≡◌, Bool, true, false, not, ◌&&◌, ◌||◌, Option, none, some, List, [], ◌∷◌, String,
  ltb, leb, ◌==◌, if◌then◌else◌, is_some, is_some_and, or_else,
}
use drone_dispatch.Common.Exec.{
  Result, ok, err, Exec, pure, fail, lift, ok_or, gets, modify, reject_if, transaction, ◌>>=◌, ◌>>◌,
}
use drone_dispatch.Common.Int.{ℤ, pos, ltb_ℤ}
use drone_dispatch.Common.Table.{find, update, insert, at}
use drone_dispatch.Crypto.{Primitives, hash_token, pkce_s256, hashes_match}
use drone_dispatch.Db.{Db, Grant, AuthCode, RefreshToken, GrantRevoked, OutboxRow}
use drone_dispatch.Registry.{Client}
use drone_dispatch.Text.{Text, same}
use drone_dispatch.Text.Keyed.{by}

pub record OauthError : Type 0 where
  pub status : ℕ
  pub error : String
  pub description : String

abbrev pub invalid_grant : String → OauthError
invalid_grant description = record {
  status = 400;
  error = "invalid_grant";
  description = description;
}

abbrev pub invalid_request : String → OauthError
invalid_request description = record {
  status = 400;
  error = "invalid_request";
  description = description;
}

abbrev pub invalid_client : OauthError
invalid_client = record {
  status = 401;
  error = "invalid_client";
  description = "Client authentication failed";
}

abbrev pub server_error : OauthError
server_error = record { status = 500; error = "server_error"; description = "Something went wrong" }

pub record TokenForm : Type 0 where
  pub grant_type : Text
  pub code : Option Text
  pub redirect_uri : Option Text
  pub code_verifier : Option Text
  pub refresh_token : Option Text
  pub client_id : Option Text
  pub client_secret : Option Text

-- The claims that `token_response` signs. `jti` is a fresh identifier.
pub record Claims : Type 0 where
  pub iss : Text
  pub sub : ℕ
  pub aud : Text
  pub client_id : Text
  pub scope : Text
  pub iat : ℕ
  pub exp : ℕ
  pub jti : ℕ
  pub gid : ℕ
  pub acr : Text
  pub amr : List Text
  pub auth_time : ℕ

-- The body of a successful reply. The access token stands for its claims: signing is not modelled.
pub record Tokens : Type 0 where
  pub access_token : Claims
  pub expires_in : ℕ
  pub refresh_token : Text
  pub scope : Text

-- What one request draws: a random token, and identifiers.
pub record Draw : Type 0 where
  pub token : Text
  pub event_id : ℕ
  pub jti : ℕ

abbrev pub access_token_ttl_secs : ℕ
access_token_ttl_secs = 3600

abbrev pub public_refresh_days : ℕ
public_refresh_days = 30

abbrev pub confidential_refresh_days : ℕ
confidential_refresh_days = 90

abbrev pub reuse_window_secs : ℤ
reuse_window_secs = pos 60

abbrev pub auth_grant_revoked : String
auth_grant_revoked = "auth.events.grant_revoked"

abbrev pub Action : Type 0 → Type 0
Action A = Exec OauthError Db A

-- `fetch_one`: no row is an error of the database.
unfoldable pub load_grant : ℕ → Action Grant
load_grant grant_id db = ok_or (find (at (λ g. g.id) grant_id) db.grants) server_error db

-- svc-common's `outbox::enqueue`, on a table whose primary key is `id`.
unfoldable pub enqueue : ℕ → ℕ → String → GrantRevoked → Action (Unit {0})
enqueue now id subject payload db = elim (insert (at (λ o. o.id) id) row db.outbox) [
  | none ↦ (err server_error, db)
  | some outbox ↦ (ok tt, record db { outbox = outbox })
]
  where
    row : OutboxRow
    row = record {
      id = id;
      subject = subject;
      payload = payload;
      created_at = now;
      published_at = none;
    }

abbrev pub is_live_grant : ℕ → Grant → Bool
is_live_grant grant_id g = g.id == grant_id && not (is_some g.revoked_at)

abbrev pub revoke_row : ℕ → Grant → Grant
revoke_row now g = record g { revoked_at = some now }

abbrev pub is_live_token : ℕ → RefreshToken → Bool
is_live_token grant_id t = t.grant_id == grant_id && not (is_some t.revoked_at)

abbrev pub revoke_token : ℕ → RefreshToken → RefreshToken
revoke_token now t = record t { revoked_at = some now }

-- The event that `revoke_grant` queues.
abbrev pub revocation : Clock → ℕ → Grant → GrantRevoked
revocation clock event_id grant = record {
  event_id = event_id;
  grant_id = grant.id;
  sub = grant.user_id;
  client_id = grant.client_id;
  resource = grant.resource;
  revoked_at = clock.utc_now / 1000000000;
}

-- `rows_affected() == 0` returns early: no live row of that id.
unfoldable pub revoke_grant : Clock → ℕ → Grant → Action (Unit {0})
unfolding enqueue
revoke_grant clock event_id grant db = elim (find (is_live_grant grant.id) db.grants) [
  | none ↦ (ok tt, db)
  | some _ ↦
      enqueue clock.db_now event_id auth_grant_revoked (revocation clock event_id grant)
        (record db {
          grants = update (is_live_grant grant.id) (revoke_row clock.db_now) db.grants;
          refresh_tokens =
              update (is_live_token grant.id) (revoke_token clock.db_now) db.refresh_tokens;
        })
]

abbrev pub lifetime : Client → ℕ
lifetime client =
    if is_some client.secret_hash then confidential_refresh_days else public_refresh_days

module _ (crates : Primitives) (clock : Clock) (token : Text) (grant_id : ℕ) (client : Client) where
  -- The row that `new_refresh_token` inserts.
  abbrev pub token_row : RefreshToken
  token_row = record {
    token_hash = hash_token crates token;
    grant_id = grant_id;
    expires_at = clock.db_now + days (lifetime client);
    rotated_at = none;
    revoked_at = none;
  }

  unfoldable pub new_refresh_token : Action Text
  new_refresh_token db =
      elim (insert (by (λ t. t.token_hash) token_row.token_hash) token_row db.refresh_tokens) [
        | none ↦ (err server_error, db)
        | some tokens ↦ (ok token, record db { refresh_tokens = tokens })
      ]

unfoldable pub token_response : Text → Clock → ℕ → Grant → Text → Tokens
token_response issuer clock jti grant refresh_token = record {
  access_token = record {
    iss = issuer;
    sub = grant.user_id;
    aud = grant.resource;
    client_id = grant.client_id;
    scope = grant.scope;
    iat = clock.utc_now / 1000000000;
    exp = clock.utc_now / 1000000000 + access_token_ttl_secs;
    jti = jti;
    gid = grant.id;
    acr = grant.acr;
    amr = grant.amr;
    auth_time = grant.auth_time / 1000000000;
  };
  expires_in = access_token_ttl_secs;
  refresh_token = refresh_token;
  scope = grant.scope;
}
