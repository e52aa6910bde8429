-- ===== src/Flow/Fixture.antt =====
-- Settings and a parked request of the small service.
use drone_dispatch.Common.{none, true, false, []}
use drone_dispatch.Common.Int.{pos}
use drone_dispatch.Config.{Config}
use drone_dispatch.Db.{ParkedRequest}
use drone_dispatch.Flow.{Urls}
use drone_dispatch.Oauth.Fixture.{issuer}
use drone_dispatch.Text.{text}

abbrev pub urls : Urls
urls = record { with_query = λ uri params. none; host = λ uri. none }

abbrev pub config : Config
config = record {
  http_addr = [];
  grpc_addr = [];
  database_url = [];
  nats_url = [];
  app_url = text "https://ui";
  issuer = issuer;
  ui_url = text "https://ui";
  allowed_origins = [];
  cookie_path = text "/";
  secure_cookies = true;
  mcp_resource_url = text "https://m";
  user_api_url = text "https://u";
  merchant_api_url = text "https://p";
  signing_key_pem = [];
  webauthn_rp_id = [];
  webauthn_origin = [];
  ui_web_redirect_uris = [];
  ui_native_redirect_uris = [];
  alexa_client_secret = none;
  alexa_redirect_uris = [];
  smtp_host = [];
  smtp_port = 25;
  smtp_from = [];
  otp_ttl_secs = pos 600;
  otp_resend_secs = pos 30;
}

abbrev pub parked : ParkedRequest
parked = record {
  client_id = text "web";
  redirect_uri = text "https://w/cb";
  scope = text "openid";
  state = none;
  code_challenge = text "v";
  resource = text "https://u";
  step_up = false;
  max_age = none;
}
