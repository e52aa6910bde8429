-- ===== src/Oauth/Fixture.antt =====
-- The token endpoint on a small database: one user, one public client, one code.
use drone_dispatch.Clock.{Clock, seconds}
use drone_dispatch.Common.{false, none, some, [], ◌∷◌}
use drone_dispatch.Crypto.{Primitives}
use drone_dispatch.Db.{ClientRow, Grant, AuthCode, RefreshToken, Db}
use drone_dispatch.Oauth.{Draw, TokenForm}
use drone_dispatch.Registry.{Client}
use drone_dispatch.Text.{Text, same, text}

abbrev pub plain : Primitives
plain = record {
  sha256 = λ x. x;
  base64url = λ x. x;
  argon2_hash = λ password salt. some password;
  argon2_verify = λ hash password. same hash password;
}

abbrev pub web : ClientRow
web = record {
  client_id = text "web";
  secret_hash = none;
  name = text "Web";
  redirect_uris = text "https://w/cb" ∷ [];
  auth_method = text "none";
}

abbrev pub server : ClientRow
server = record web { client_id = text "srv"; secret_hash = some (text "s3") }

abbrev pub web_client : Client
web_client = record {
  client_id = text "web";
  name = text "Web";
  redirect_uris = text "https://w/cb" ∷ [];
  secret_hash = none;
  first_party = false;
}

abbrev pub server_client : Client
server_client = record web_client { client_id = text "srv"; secret_hash = some (text "s3") }

abbrev pub grant : Grant
grant = record {
  id = 1;
  user_id = 7;
  client_id = text "web";
  resource = text "https://r";
  scope = text "read";
  acr = text "0";
  amr = text "pwd" ∷ [];
  auth_time = seconds 90;
  revoked_at = none;
}

abbrev pub code_row : AuthCode
code_row = record {
  code_hash = text "c";
  grant_id = 1;
  redirect_uri = text "https://w/cb";
  scope = text "read";
  resource = text "https://r";
  code_challenge = text "v";
  acr = text "0";
  amr = text "pwd" ∷ [];
  auth_time = seconds 90;
  expires_at = seconds 160;
  consumed_at = none;
}

abbrev pub token_1 : RefreshToken
token_1 = record {
  token_hash = text "t";
  grant_id = 1;
  expires_at = seconds 9000;
  rotated_at = none;
  revoked_at = none;
}

abbrev pub fresh_db : Db
fresh_db = record {
  users = [];
  sessions = [];
  clients = web ∷ server ∷ [];
  auth_requests = [];
  grants = grant ∷ [];
  auth_codes = code_row ∷ [];
  refresh_tokens = token_1 ∷ [];
  outbox = [];
  signup_challenges = [];
  passkeys = [];
  webauthn_challenges = [];
}

abbrev pub revoked_grant_db : Db
revoked_grant_db = record fresh_db {
  grants = record grant { revoked_at = some (seconds 5) } ∷ [];
  refresh_tokens = [];
  auth_codes = [];
}

abbrev pub clock : Clock
clock = record { db_now = seconds 100; utc_now = seconds 100 }

abbrev pub draw : Draw
draw = record { token = text "n"; event_id = 50; jti = 51 }

abbrev pub draw_2 : Draw
draw_2 = record { token = text "m"; event_id = 60; jti = 61 }

abbrev pub code_form : TokenForm
code_form = record {
  grant_type = text "authorization_code";
  code = some (text "c");
  redirect_uri = some (text "https://w/cb");
  code_verifier = some (text "v");
  refresh_token = none;
  client_id = some (text "web");
  client_secret = none;
}

abbrev pub refresh_form : TokenForm
refresh_form = record code_form {
  grant_type = text "refresh_token";
  refresh_token = some (text "t");
}

abbrev pub issuer : Text
issuer = text "https://a"
