-- ===== src/Verifier/Build.antt =====
-- crates/svc-auth/src/verifier.rs: how a verifier is made. Which URL the keys come from is part of what a
-- fetch answers; and the metadata that each resource server publishes (RFC 9728).
use drone_dispatch.Common.{ℕ, Bool, true, false, none, some, List, [], ◌∷◌, ◌++◌}
use drone_dispatch.Common.Exec.{Result, ok, err}
use drone_dispatch.Config.Env.{trim_slashes}
use drone_dispatch.Text.{Text, text}
use drone_dispatch.Verifier.{TokenVerifier, KeyCache, VerifyError, Jwk, index_keys}
use drone_dispatch.Verifier.Extract.{AuthConfig}

unfoldable pub build : Text → Text → Bool → KeyCache → TokenVerifier
build issuer audience loads keys = record {
  issuer = issuer;
  audience = audience;
  loads = loads;
  keys = keys;
  revoked_grants = [];
}

-- `new` and `with_jwks_url`: the keys are loaded on first use.
unfoldable pub loading : Text → Text → TokenVerifier
unfolding build
loading issuer audience = build issuer audience true (record { by_kid = []; loaded_at = none })

-- A fixed key set.
unfoldable pub with_jwks : (now : ℕ) → Text → Text → List Jwk → Result VerifyError TokenVerifier
unfolding build
with_jwks now issuer audience jwks = elim (index_keys jwks) [
  | err e ↦ err e
  | ok keys ↦ ok (build issuer audience false (record { by_kid = keys; loaded_at = some now }))
]

-- Where the keys are looked for: the configured URL, or what the issuer's metadata document names.
unfoldable pub metadata_url : Text → Text
metadata_url issuer = trim_slashes issuer ++ text "/.well-known/oauth-authorization-server"

-- user-service's `auth_config`, and the same in merchant-service's `main`.
unfoldable pub auth_config : Text → Text → AuthConfig
unfolding loading
auth_config issuer api_url = record {
  verifier = loading issuer api_url;
  resource_metadata_url = api_url ++ text "/.well-known/oauth-protected-resource";
}

pub record ResourceMetadata : Type 0 where
  pub resource : Text
  pub authorization_servers : List Text
  pub scopes_supported : List Text
  pub bearer_methods_supported : List Text

abbrev pub metadata_of : Text → List Text → TokenVerifier → ResourceMetadata
metadata_of resource scopes v = record {
  resource = resource;
  authorization_servers = v.issuer ∷ [];
  scopes_supported = scopes;
  bearer_methods_supported = text "header" ∷ [];
}

unfoldable pub customer_metadata : TokenVerifier → ResourceMetadata
customer_metadata v = metadata_of v.audience (text "openid" ∷ text "email" ∷ []) v

unfoldable pub merchant_metadata : TokenVerifier → ResourceMetadata
merchant_metadata v = metadata_of v.audience (text "openid" ∷ text "email" ∷ text "merchant" ∷ []) v

-- `mcp_resource` is the service's setting.
unfoldable pub mcp_resource_metadata : (mcp_resource : Text) → TokenVerifier → ResourceMetadata
mcp_resource_metadata mcp_resource v =
    metadata_of mcp_resource (text "openid" ∷ text "delivery" ∷ []) v
