-- ===== src/Oauth/Metadata.antt =====
-- services/auth-service/src/oauth.rs: the metadata of the authorization server, and the client's
-- credentials in the Authorization header.
mod Tests
use drone_dispatch.Common.{
  ℕ, Bool, true, false, ◌||◌, ◌&&◌, Option, none, some, List, [], ◌∷◌, ◌++◌, ltb, ◌==◌,
  if◌then◌else◌, and_then,
}
use drone_dispatch.Common.Sorting.{order_by}
use drone_dispatch.Registry.{Resource}
use drone_dispatch.Text.{Text, text, same, split_once, trim}
use drone_dispatch.Text.Dedup.{dedup, text_le}
use drone_dispatch.Text.Ascii.{eq_ignore_ascii_case}

-- `flat_map(|r| r.scopes)`
all_scopes : List Resource → List Text
all_scopes [] = []
all_scopes (r ∷ rest) = r.scopes ++ all_scopes rest

unfoldable pub scopes_supported : List Resource → List Text
unfolding all_scopes
scopes_supported resources = dedup (order_by text_le (all_scopes resources))

-- The fields of the document that depend on the settings; the others are fixed lists.
pub record Metadata : Type 0 where
  pub issuer : Text
  pub authorization_endpoint : Text
  pub token_endpoint : Text
  pub revocation_endpoint : Text
  pub jwks_uri : Text
  pub response_types_supported : List Text
  pub grant_types_supported : List Text
  pub code_challenge_methods_supported : List Text
  pub token_endpoint_auth_methods_supported : List Text
  pub scopes_supported : List Text
  pub acr_values_supported : List Text
  pub authorization_response_iss_parameter_supported : Bool

unfoldable pub metadata : Text → List Resource → Metadata
metadata issuer resources = record {
  issuer = issuer;
  authorization_endpoint = issuer ++ text "/authorize";
  token_endpoint = issuer ++ text "/token";
  revocation_endpoint = issuer ++ text "/revoke";
  jwks_uri = issuer ++ text "/.well-known/jwks.json";
  response_types_supported = text "code" ∷ [];
  grant_types_supported = text "authorization_code" ∷ text "refresh_token" ∷ [];
  code_challenge_methods_supported = text "S256" ∷ [];
  token_endpoint_auth_methods_supported =
      text "none" ∷ text "client_secret_basic" ∷ text "client_secret_post" ∷ [];
  scopes_supported = scopes_supported resources;
  acr_values_supported = text "mfa" ∷ [];
  authorization_response_iss_parameter_supported = true;
}

-- What the crates give: the text that base64 bytes encode, and the value of a form field.
pub record Decoders : Type 0 where
  pub base64_text : Text → Option Text
  pub form_value : Text → Option Text

-- The argument is the Authorization header, if there is one and it is visible ASCII (`to_str`).
unfoldable pub basic_auth : Decoders → Option Text → Option (Text × Text)
basic_auth decoders none = none
basic_auth decoders (some value) = and_then (split_once 32 value) (λ parts.
    if eq_ignore_ascii_case parts.0 (text "basic")
    then and_then (decoders.base64_text (trim parts.1)) (λ decoded.
      and_then (split_once b':' decoded) (λ pair.
        and_then (decoders.form_value pair.0) (λ client_id.
          and_then (decoders.form_value pair.1) (λ secret. some (client_id, secret)))))
    else none)
