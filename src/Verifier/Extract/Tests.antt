-- ===== src/Verifier/Extract/Tests.antt =====
-- The extractor at concrete headers.
use drone_dispatch.Common.{◌≡◌, none, some, refl, ◌↔◌, ◌⊎◌, []}
use drone_dispatch.Common.Exec.{ok, err}
use drone_dispatch.Text.{Text, text}
use drone_dispatch.Verifier.{keys_unavailable}
use drone_dispatch.Verifier.Extract.{
  AuthConfig, bearer_token, authenticated, unauthorized, keys_missing,
}
use drone_dispatch.Verifier.Extract.Bearer.{Bearer, Accepts}
use drone_dispatch.Verifier.Extract.Outcome.{
  authenticated_iff, authenticated-eq-err, unavailable, Refused,
}
use drone_dispatch.Verifier.Fixture.{jwt, verifier, claims_of}

abbrev config : AuthConfig
config = record { verifier = verifier; resource_metadata_url = text "http://m" }

bearer_token_runs : bearer_token (some (text "bEARER  abc ")) ≡ some (text "abc")
unfolding bearer_token drone_dispatch.Text.split_once drone_dispatch.Text.Ascii.eq_ignore_ascii_case
    drone_dispatch.Text.trim
bearer_token_runs = refl

bearer_token_needs_a_token : bearer_token (some (text "Bearer  ")) ≡ none
unfolding bearer_token drone_dispatch.Text.split_once drone_dispatch.Text.Ascii.eq_ignore_ascii_case
    drone_dispatch.Text.trim
bearer_token_needs_a_token = refl

abbrev after : AuthConfig
after = (authenticated jwt 5 none (some (text "Bearer h")) config).1

authenticated_iff_example :
    (authenticated jwt 5 none (some (text "Bearer h")) config ≡ (ok (claims_of (text "h")), after))
    ↔ ((token : Text) × Bearer (some (text "Bearer h")) token
        × Accepts jwt 5 none token config.verifier after.verifier (claims_of (text "h"))
        × (after.resource_metadata_url ≡ config.resource_metadata_url))
authenticated_iff_example =
    authenticated_iff jwt 5 none (some (text "Bearer h")) config after (claims_of (text "h"))

-- A verifier that has no keys yet and cannot load them.
abbrev keyless : AuthConfig
keyless = record config {
  verifier = record verifier { keys = record { by_kid = []; loaded_at = none } };
}

refused_without_keys :
    authenticated jwt 5 none (some (text "Bearer h")) keyless
    ≡ (err (unavailable jwt 5 none (some (text "Bearer h")) keyless keyless), keyless)
unfolding authenticated bearer_token drone_dispatch.Text.split_once
    drone_dispatch.Text.Ascii.eq_ignore_ascii_case drone_dispatch.Text.trim
    drone_dispatch.Verifier.verify drone_dispatch.Common.Table.find
    drone_dispatch.Verifier.Extract.rejection
refused_without_keys = refl

authenticated-eq-err_example :
    Refused jwt 5 none
      (some (text "Bearer h"))
      keyless
      keyless
      (unavailable jwt 5 none (some (text "Bearer h")) keyless keyless)
authenticated-eq-err_example =
    authenticated-eq-err jwt 5 none (some (text "Bearer h")) keyless keyless
      (unavailable jwt 5 none (some (text "Bearer h")) keyless keyless) refused_without_keys
