-- ===== src/Verifier/Extract.antt =====
-- crates/svc-auth/src/extract.rs and the challenges of lib.rs: what a protected handler asks of the
-- request's access token, and how a refusal is answered.
pub mod Bearer
pub mod Outcome
mod Tests
use drone_dispatch.Common.{
  ℕ, ◌-◌, ◌&&◌, not, Option, none, some, ◌++◌, and_then, ltb, if◌then◌else◌, String,
}
use drone_dispatch.Common.Exec.{Exec, Result, ok, err}
use drone_dispatch.Common.Int.{ℤ, pos, negsuc}
use drone_dispatch.Text.{Text, text, is_empty, split_once, trim}
use drone_dispatch.Text.Ascii.{eq_ignore_ascii_case, decimal_u64}
use drone_dispatch.Verifier.{
  TokenVerifier, AccessClaims, VerifyError, keys_unavailable, Jwt, Fetched, verify, has_scope,
  has_fresh_mfa,
}

-- A reply of svc-common's `problem`, with the WWW-Authenticate header where there is one.
pub record Problem : Type 0 where
  pub status : ℕ
  pub title : String
  pub reason : Option String
  pub www_authenticate : Option Text

unfoldable pub problem : ℕ → String → Option String → Problem
problem status title reason = record {
  status = status;
  title = title;
  reason = reason;
  www_authenticate = none;
}

unfoldable pub not_implemented : Problem
unfolding problem
not_implemented = problem 501 "Not implemented yet" none

pub record AuthRejection : Type 0 where
  pub status : ℕ
  pub title : String
  pub challenge : Option Text

-- `from_header` is axum's `HeaderValue::try_from`, which refuses a text with control characters.
unfoldable pub into_response : (from_header : Text → Option Text) → AuthRejection → Problem
unfolding problem
into_response from_header r = record (problem r.status r.title none) {
  www_authenticate = and_then r.challenge from_header;
}

unfoldable pub challenge_unauthorized : Text → Text
challenge_unauthorized url = text "Bearer resource_metadata=\"" ++ url ++ text "\""

unfoldable pub challenge_step_up : ℕ → Text
challenge_step_up max_age_secs =
    text "Bearer error=\"insufficient_user_authentication\", "
    ++ text "error_description=\"A recent second factor is required\", "
    ++ text "acr_values=\"mfa\", max_age="
    ++ decimal_u64 max_age_secs

-- The verifier is shared, and a check may reload its keys.
pub record AuthConfig : Type 0 where
  pub verifier : TokenVerifier
  pub resource_metadata_url : Text

unfoldable pub unauthorized : AuthConfig → AuthRejection
unfolding challenge_unauthorized
unauthorized config = record {
  status = 401;
  title = "Invalid or missing access token";
  challenge = some (challenge_unauthorized config.resource_metadata_url);
}

abbrev pub keys_missing : AuthRejection
keys_missing = record {
  status = 503;
  title = "Cannot verify access tokens right now";
  challenge = none;
}

-- The argument is the Authorization header, if there is one and it is visible ASCII (`to_str`).
unfoldable pub bearer_token : Option Text → Option Text
bearer_token none = none
bearer_token (some value) = and_then (split_once 32 value) (λ parts.
    let token = trim parts.1 in
    if eq_ignore_ascii_case parts.0 (text "bearer") && not (is_empty token)
    then some token
    else none)

unfoldable pub rejection : AuthConfig → VerifyError → AuthRejection
unfolding unauthorized
rejection config keys_unavailable = keys_missing
rejection config error = unauthorized config

answer :
    AuthConfig
    → Result VerifyError AccessClaims × TokenVerifier
    → Result AuthRejection AccessClaims × AuthConfig
unfolding rejection
answer config (ok claims, v) = (ok claims, record config { verifier = v })
answer config (err e, v) = (err (rejection config e), record config { verifier = v })

unfoldable pub authenticated :
    Jwt → ℕ → Fetched → Option Text → Exec AuthRejection AuthConfig AccessClaims
unfolding bearer_token unauthorized answer
authenticated jwt now fetched authorization config = elim (bearer_token authorization) [
  | none ↦ (err (unauthorized config), config)
  | some token ↦ answer config (verify jwt now fetched token config.verifier)
]

abbrev pub missing_scope : Text → AuthRejection
missing_scope scope = record {
  status = 403;
  title = "Missing required scope";
  challenge = some (text "Bearer error=\"insufficient_scope\", scope=\"" ++ scope ++ text "\"");
}

unfoldable pub require_scope : AccessClaims → Text → Result AuthRejection (Unit {0})
require_scope claims scope = if has_scope claims scope then ok tt else err (missing_scope scope)

-- `u64 as i64`
unfoldable pub as_i64 : ℕ → ℤ
as_i64 n = if ltb n 9223372036854775808 then pos n else negsuc (18446744073709551616 - n - 1)

abbrev pub stale_mfa : ℕ → AuthRejection
stale_mfa max_age_secs = record {
  status = 403;
  title = "A recent second factor is required";
  challenge = some (challenge_step_up max_age_secs);
}

-- `timestamp` is the system's clock, in seconds.
unfoldable pub require_fresh_mfa :
    (timestamp : ℕ) → AccessClaims → ℕ → Result AuthRejection (Unit {0})
unfolding as_i64
require_fresh_mfa timestamp claims max_age_secs =
    if has_fresh_mfa claims (as_i64 timestamp) (as_i64 max_age_secs)
    then ok tt
    else err (stale_mfa max_age_secs)
