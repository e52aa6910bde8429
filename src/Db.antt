-- ===== src/Db.antt =====
-- The database `auth` (services/auth-service/migrations): one list of rows for each table that the
-- code reads or writes, with the columns that it uses. A `Uuid` is a number.
use drone_dispatch.Common.{ℕ, Bool, Option, List, String}
use drone_dispatch.Common.Int.{ℤ}
use drone_dispatch.Text.{Text}

pub record User : Type 0 where
  pub id : ℕ
  pub email : Text
  pub password_hash : Text
  pub email_verified_at : Option ℕ
  pub disabled_at : Option ℕ
  pub created_at : ℕ

pub record SessionRow : Type 0 where
  pub id_hash : Text
  pub user_id : ℕ
  pub csrf_token_hash : Text
  pub auth_time : ℕ
  pub amr : List Text
  pub expires_at : ℕ

pub record ClientRow : Type 0 where
  pub client_id : Text
  pub secret_hash : Option Text
  pub name : Text
  pub redirect_uris : List Text
  pub auth_method : Text

-- flow.rs `ParkedRequest`: the column `auth_requests.params`. `max_age` is in seconds.
pub record ParkedRequest : Type 0 where
  pub client_id : Text
  pub redirect_uri : Text
  pub scope : Text
  pub state : Option Text
  pub code_challenge : Text
  pub resource : Text
  pub step_up : Bool
  pub max_age : Option ℤ

pub record AuthRequest : Type 0 where
  pub id_hash : Text
  pub params : ParkedRequest
  pub expires_at : ℕ

-- oauth.rs `Grant`.
pub record Grant : Type 0 where
  pub id : ℕ
  pub user_id : ℕ
  pub client_id : Text
  pub resource : Text
  pub scope : Text
  pub acr : Text
  pub amr : List Text
  pub auth_time : ℕ
  pub revoked_at : Option ℕ

pub record AuthCode : Type 0 where
  pub code_hash : Text
  pub grant_id : ℕ
  pub redirect_uri : Text
  pub scope : Text
  pub resource : Text
  pub code_challenge : Text
  pub acr : Text
  pub amr : List Text
  pub auth_time : ℕ
  pub expires_at : ℕ
  pub consumed_at : Option ℕ

pub record RefreshToken : Type 0 where
  pub token_hash : Text
  pub grant_id : ℕ
  pub expires_at : ℕ
  pub rotated_at : Option ℕ
  pub revoked_at : Option ℕ

-- `auth.events.grant_revoked`: the message that `revoke_grant` encodes. Its time is in seconds.
pub record GrantRevoked : Type 0 where
  pub event_id : ℕ
  pub grant_id : ℕ
  pub sub : ℕ
  pub client_id : Text
  pub resource : Text
  pub revoked_at : ℕ

pub record OutboxRow : Type 0 where
  pub id : ℕ
  pub subject : String
  pub payload : GrantRevoked
  pub created_at : ℕ
  pub published_at : Option ℕ

pub record SignupChallenge : Type 0 where
  pub id_hash : Text
  pub email_hash : Text
  pub otp_hash : Text
  pub expires_at : ℕ
  pub attempts : ℕ
  pub verified_at : Option ℕ
  pub last_sent_at : ℕ

-- `passkey` is the JSON text of webauthn-rs's `Passkey`.
pub record PasskeyRow : Type 0 where
  pub id : ℕ
  pub user_id : ℕ
  pub credential_id : List ℕ
  pub passkey : Text
  pub name : Text
  pub created_at : ℕ
  pub last_used_at : Option ℕ

pub record WebauthnChallenge : Type 0 where
  pub id_hash : Text
  pub user_id : Option ℕ
  pub kind : Text
  pub state : Text
  pub expires_at : ℕ

pub record Db : Type 0 where
  pub users : List User
  pub sessions : List SessionRow
  pub clients : List ClientRow
  pub auth_requests : List AuthRequest
  pub grants : List Grant
  pub auth_codes : List AuthCode
  pub refresh_tokens : List RefreshToken
  pub outbox : List OutboxRow
  pub signup_challenges : List SignupChallenge
  pub passkeys : List PasskeyRow
  pub webauthn_challenges : List WebauthnChallenge
