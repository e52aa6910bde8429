-- ===== src/Config/Env.antt =====
-- services/auth-service/src/config.rs, `from_env`: the settings from environment variables.
mod Tests
use drone_dispatch.Common.{
  ℕ, suc, ◌+◌, ◌-◌, ◌*◌, Bool, not, ◌&&◌, ◌||◌, Option, none, some, List, [], ◌∷◌, ◌++◌, ltb, leb,
  ◌==◌, if◌then◌else◌, unwrap_or, and_then, is_none_or,
}
use drone_dispatch.Common.Exec.{Result, ok, err}
use drone_dispatch.Common.Int.{ℤ, pos, negsuc}
use drone_dispatch.Config.{Config}
use drone_dispatch.Text.Dedup.{dedup}
use drone_dispatch.Text.Ascii.{digits_value}
use drone_dispatch.Text.{Text, text, same, is_empty, split, trim}

-- A parsed URL of the crate url, as far as the settings read it.
pub record Url : Type 0 where
  pub scheme : Text
  pub host : Option Text
  pub path : Text
  pub origin : Text

-- The process's environment, where a variable that is not Unicode counts as unset; the crate url; and the
-- content of the file that a path of the signing key leads to.
pub record Environment : Type 0 where
  pub var : Text → Option Text
  pub parse_url : Text → Option Url
  pub read_key_file : Text → Option Text

-- The error texts are not kept.
pub data ConfigError : Type 0 where
  missing_variable bad_url bad_number unreadable_key : ConfigError

abbrev Setting : Type 0 → Type 0
Setting A = Result ConfigError A

infixl 5 ◌>>=◌
abbrev ◌>>=◌ : {A B : Type 0} → Setting A → (A → Setting B) → Setting B
ok a >>= f = f a
err e >>= f = err e

abbrev or_error : {A : Type 0} → Option A → ConfigError → Setting A
or_error none e = err e
or_error (some a) e = ok a

-- `trim_end_matches('/')`
unfoldable pub trim_slashes : Text → Text
trim_slashes [] = []
trim_slashes (c ∷ t) =
    let rest = trim_slashes t in if is_empty rest && c == b'/' then [] else c ∷ rest

-- `trim`
unfoldable pub trim_url : Text → Text
unfolding trim_slashes
trim_url url = trim_slashes (trim url)

cleaned : List Text → List Text
cleaned [] = []
cleaned (t ∷ ts) = let rest = cleaned ts in if is_empty (trim t) then rest else trim t ∷ rest

unfoldable pub list : Text → List Text
unfolding cleaned
list value = cleaned (split (λ c. c == b',') value)

-- `replace("\\n", "\n")`
unescaped : Text → Text
unescaped [] = []
unescaped (c ∷ []) = c ∷ []
unescaped (c ∷ d ∷ t) =
    let both = unescaped t in
    let one = unescaped (d ∷ t) in if c == 92 && d == b'n' then 10 ∷ both else c ∷ one

unsigned : Text → Option ℕ
unfolding digits_value
unsigned t = if is_empty t then none else digits_value 0 t

below : ℕ → Option ℕ → Option ℕ
below bound n = and_then n (λ k. if ltb k bound then some k else none)

-- `parse::<u16>` and `parse::<i64>`
parse_u16 : Text → Option ℕ
unfolding unsigned below
parse_u16 [] = none
parse_u16 (c ∷ t) = below 65536 (if c == b'+' then unsigned t else unsigned (c ∷ t))

negated : ℕ → ℤ
negated n = if n == 0 then pos 0 else negsuc (n - 1)

parse_i64 : Text → Option ℤ
unfolding unsigned below negated
parse_i64 [] = none
parse_i64 (c ∷ t) =
    if c == b'-'
    then and_then (below 9223372036854775809 (unsigned t)) (λ n. some (negated n))
    else and_then (below 9223372036854775808 (if c == b'+' then unsigned t else unsigned (c ∷ t)))
        (λ n. some (pos n))

cookie_path_of : Text → Text
unfolding trim_slashes
cookie_path_of path = if is_empty (trim_slashes path) then text "/" else trim_slashes path

module _ (environment : Environment) where
  open environment use {var, parse_url, read_key_file}

  unfoldable pub env : Text → Setting Text
  env key = or_error (var key) missing_variable

  unfoldable pub env_or : Text → Text → Text
  env_or key default = unwrap_or (var key) default

  unfoldable pub origin : Text → Setting Text
  origin url = do u ← or_error (parse_url url) bad_url; ok (Url.origin u)

  -- AUTH_SIGNING_KEY_FILE, or the older AUTH_SIGNING_KEY_PEM.
  unfoldable pub signing_key_pem : Setting Text
  unfolding env unescaped
  signing_key_pem = elim (var (text "AUTH_SIGNING_KEY_FILE")) [
    | some path ↦ or_error (read_key_file path) unreadable_key
    | none ↦ (do pem ← env (text "AUTH_SIGNING_KEY_PEM"); ok (unescaped pem))
  ]

  abbrev url_setting : Text → Text → Text
  url_setting key default = trim_url (env_or key default)

  -- `Config::from_env`: the settings are read in the order of the code, and the first that fails ends it.
  unfoldable pub from_env : Setting Config
  unfolding dedup list parse_u16 parse_i64 cookie_path_of env_or
  from_env =
      let app_url = url_setting (text "APP_PUBLIC_URL") (text "http://localhost:8086") in
      let issuer = url_setting (text "ISSUER") (app_url ++ text "/api/auth") in
      let ui_url = url_setting (text "UI_URL") app_url in
      do
        app_origin ← origin app_url
        ui_origin ← origin ui_url
        issuer_url ← or_error (parse_url issuer) bad_url
        parsed_ui ← or_error (parse_url ui_url) bad_url
        database_url ← env (text "DATABASE_URL")
        pem ← signing_key_pem
        port ← or_error (parse_u16 (env_or (text "SMTP_PORT") (text "1025"))) bad_number
        ttl ← or_error (parse_i64 (env_or (text "OTP_TTL_SECS") (text "600"))) bad_number
        resend ← or_error (parse_i64 (env_or (text "OTP_RESEND_SECS") (text "30"))) bad_number
        ok (record {
          http_addr = env_or (text "HTTP_ADDR") (text "0.0.0.0:8081");
          grpc_addr = env_or (text "GRPC_ADDR") (text "0.0.0.0:9081");
          database_url = database_url;
          nats_url = env_or (text "NATS_URL") (text "nats://localhost:4222");
          app_url = app_url;
          issuer = issuer;
          ui_url = ui_url;
          allowed_origins =
              dedup (app_origin ∷ ui_origin ∷ list (env_or (text "EXTRA_ALLOWED_ORIGINS") []));
          cookie_path = cookie_path_of issuer_url.path;
          secure_cookies = same issuer_url.scheme (text "https");
          mcp_resource_url =
              url_setting (text "MCP_RESOURCE_URL") (text "http://localhost:8085/mcp");
          user_api_url = url_setting (text "USER_API_URL") (app_url ++ text "/api/user");
          merchant_api_url =
              url_setting (text "MERCHANT_API_URL") (app_url ++ text "/api/merchant");
          signing_key_pem = pem;
          webauthn_rp_id =
              env_or (text "WEBAUTHN_RP_ID") (unwrap_or parsed_ui.host (text "localhost"));
          webauthn_origin = env_or (text "WEBAUTHN_ORIGIN") ui_origin;
          ui_web_redirect_uris = list (
              env_or (text "UI_WEB_REDIRECT_URIS")
                (app_url ++ text "/auth/callback,http://localhost:8087/auth/callback"));
          ui_native_redirect_uris =
              list (env_or (text "UI_NATIVE_REDIRECT_URIS") (text "dronedrop://auth/callback"));
          alexa_client_secret =
              and_then (var (text "ALEXA_CLIENT_SECRET"))
                (λ s. if is_empty s then none else some s);
          alexa_redirect_uris = list (env_or (text "ALEXA_REDIRECT_URIS") []);
          smtp_host = env_or (text "SMTP_HOST") (text "localhost");
          smtp_port = port;
          smtp_from = env_or (text "SMTP_FROM") (text "Drone Drop <no-reply@dronedrop.local>");
          otp_ttl_secs = ttl;
          otp_resend_secs = resend;
        })
