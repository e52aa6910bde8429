-- ===== src/Verifier/Fixture.antt =====
-- For tests: a verifier with one loaded key, and tokens that are the text of their grant id.
use drone_dispatch.Common.{none, some, true, [], ◌∷◌}
use drone_dispatch.Common.Int.{pos}
use drone_dispatch.Text.{Text, text}
use drone_dispatch.Verifier.{Jwt, TokenVerifier, AccessClaims}

abbrev pub claims_of : Text → AccessClaims
claims_of gid = record {
  iss = [];
  sub = text "u";
  aud = [];
  client_id = [];
  scope = text "openid merchant";
  iat = pos 0;
  exp = pos 0;
  jti = [];
  gid = gid;
  acr = none;
  amr = [];
  auth_time = none;
}

abbrev pub jwt : Jwt
jwt = record {
  decode_header =
      λ token. some (record { is_es256 = true; typ = some (text "at+jwt"); kid = some (text "k") });
  decode = λ issuer audience key token. some (claims_of token);
}

abbrev pub verifier : TokenVerifier
verifier = record {
  issuer = [];
  audience = [];
  loads = true;
  keys = record { by_kid = (text "k", text "old") ∷ []; loaded_at = some 0 };
  revoked_grants = [];
}
