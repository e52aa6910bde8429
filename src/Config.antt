-- ===== src/Config.antt =====
-- services/auth-service/src/config.rs: the settings. Durations are in seconds.
pub mod Env
use drone_dispatch.Common.{ℕ, Bool, Option, List}
use drone_dispatch.Common.Int.{ℤ}
use drone_dispatch.Text.{Text}

pub record Config : Type 0 where
  pub http_addr : Text
  pub grpc_addr : Text
  pub database_url : Text
  pub nats_url : Text
  pub app_url : Text
  pub issuer : Text
  pub ui_url : Text
  pub allowed_origins : List Text
  pub cookie_path : Text
  pub secure_cookies : Bool
  pub mcp_resource_url : Text
  pub user_api_url : Text
  pub merchant_api_url : Text
  pub signing_key_pem : Text
  pub webauthn_rp_id : Text
  pub webauthn_origin : Text
  pub ui_web_redirect_uris : List Text
  pub ui_native_redirect_uris : List Text
  pub alexa_client_secret : Option Text
  pub alexa_redirect_uris : List Text
  pub smtp_host : Text
  pub smtp_port : ℕ
  pub smtp_from : Text
  pub otp_ttl_secs : ℤ
  pub otp_resend_secs : ℤ
