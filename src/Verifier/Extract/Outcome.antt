-- ===== src/Verifier/Extract/Outcome.antt =====
-- Which requests the extractor lets through, and how it answers the others.
use drone_dispatch.Verifier.Extract.Bearer.{Bearer, Accepts, bearer_token_iff, verify_iff}
use drone_dispatch.Common.{
  ◌≢◌, none, ◌++◌, ◌≡◌, ◌⊎◌, inl, inr, ℕ, Option, some, arith, Option-cases, ◌↔◌,
}
use drone_dispatch.Common.Exec.{Result, ok, err}
use drone_dispatch.Text.{Text, text}
use drone_dispatch.Verifier.{
  TokenVerifier, AccessClaims, VerifyError, keys_unavailable, malformed, wrong_type, unknown_key,
  invalid, revoked, Jwt, Fetched, verify,
}
use drone_dispatch.Verifier.Extract.{
  AuthRejection, AuthConfig, unauthorized, bearer_token, rejection, answer, authenticated,
  challenge_unauthorized,
}

module _ (jwt : Jwt) (now : ℕ) (fetched : Fetched) (authorization : Option Text)
    (config config' : AuthConfig) where
  -- The check that the header's token went through.
  abbrev pub Checked : Result VerifyError AccessClaims → Type 0
  Checked result =
      (token : Text) × (bearer_token authorization ≡ some token)
      × (verify jwt now fetched token config.verifier ≡ (result, config'.verifier))

  answer-eq-ok :
      (checked : Result VerifyError AccessClaims × TokenVerifier) (claims : AccessClaims)
      → answer config checked ≡ (ok claims, config')
      → (checked ≡ (ok claims, config'.verifier))
        × (config'.resource_metadata_url ≡ config.resource_metadata_url)
  unfolding answer
  answer-eq-ok (ok c, v) claims e = ground arith
  answer-eq-ok (err x, v) claims e = ground arith

  answer-eq-err :
      (checked : Result VerifyError AccessClaims × TokenVerifier) (r : AuthRejection)
      → answer config checked ≡ (err r, config')
      → (e : VerifyError) × (checked ≡ (err e, config'.verifier)) × (r ≡ rejection config e)
  unfolding answer
  answer-eq-err (ok c, v) r e = absurd (ground arith)
  answer-eq-err (err x, v) r e = (x, ground arith, ground arith)

  pub authenticated-eq-ok :
      (claims : AccessClaims)
      → authenticated jwt now fetched authorization config ≡ (ok claims, config')
      → Checked (ok claims) × (config'.resource_metadata_url ≡ config.resource_metadata_url)
  unfolding authenticated
  authenticated-eq-ok claims e = elim (Option-cases (bearer_token authorization)) [
    | inl missing ↦ absurd (ground (arith, missing))
    | inr (token, given) ↦
        let (checked, kept) =
          answer-eq-ok (verify jwt now fetched token config.verifier) claims
            (ground (arith, given)) in
        ((token, given, checked), kept)
  ]

  authenticated_of_Checked :
      (claims : AccessClaims)
      → Checked (ok claims)
      → config'.resource_metadata_url ≡ config.resource_metadata_url
      → authenticated jwt now fetched authorization config ≡ (ok claims, config')
  unfolding authenticated answer
  authenticated_of_Checked claims (token, given, checked) kept =
      ground (arith, given, checked, kept)

  -- A request reaches the handler, with the claims of its token, exactly when its Authorization header is the
  -- word `bearer` in any case, a space and a token, and the verifier accepts it: an ES256 access token of a key
  -- it knows, whose claims check out against that key, of a grant that is not on its list of revoked ones. The
  -- metadata URL stays as it is.
  pub authenticated_iff :
      (claims : AccessClaims)
      → (authenticated jwt now fetched authorization config ≡ (ok claims, config')) ↔ (
          (token : Text) × Bearer authorization token
          × Accepts jwt now fetched token config.verifier config'.verifier claims
          × (config'.resource_metadata_url ≡ config.resource_metadata_url))
  authenticated_iff claims = (
    λ e.
        let ((token, given, checked), kept) = authenticated-eq-ok claims e in
        (
          token,
          (bearer_token_iff authorization token).0 given,
          (verify_iff jwt now fetched token config.verifier config'.verifier claims).0 checked,
          kept,
        ),
    λ h.
        let (token, given, accepted, kept) = h in
        authenticated_of_Checked claims
          (
            token,
            (bearer_token_iff authorization token).1 given,
            (verify_iff jwt now fetched token config.verifier config'.verifier claims).1 accepted,
          )
          kept,
  )

  -- The header's token, for which the verifier gives an error.
  abbrev pub Fails : VerifyError → Type 0
  Fails e =
      (token : Text) × Bearer authorization token
      × (verify jwt now fetched token config.verifier ≡ (err e, config'.verifier))

  abbrev pub no_access : AuthRejection
  no_access = record {
    status = 401;
    title = "Invalid or missing access token";
    challenge =
        some (text "Bearer resource_metadata=\"" ++ config.resource_metadata_url ++ text "\"");
  }

  abbrev pub unavailable : AuthRejection
  unavailable = record {
    status = 503;
    title = "Cannot verify access tokens right now";
    challenge = none;
  }

  abbrev pub Refused : AuthRejection → Type 0
  Refused r =
      ((r ≡ no_access)
        × ((¬ ((token : Text) × Bearer authorization token))
            ⊎ ((e : VerifyError) × (e ≢ keys_unavailable) × Fails e)))
      ⊎ ((r ≡ unavailable) × Fails keys_unavailable)

  Refused-for : (r : AuthRejection) (e : VerifyError) → Fails e → r ≡ rejection config e → Refused r
  unfolding rejection unauthorized challenge_unauthorized
  Refused-for r keys_unavailable fails e = inr (e, fails)
  Refused-for r malformed fails e = inl (e, inr (malformed, λ k. cc, fails))
  Refused-for r wrong_type fails e = inl (e, inr (wrong_type, λ k. cc, fails))
  Refused-for r unknown_key fails e = inl (e, inr (unknown_key, λ k. cc, fails))
  Refused-for r invalid fails e = inl (e, inr (invalid, λ k. cc, fails))
  Refused-for r revoked fails e = inl (e, inr (revoked, λ k. cc, fails))

  -- A request that is refused gets 503 with no challenge where the verifier could not load its keys for the
  -- header's token, and otherwise, without such a token or for another error of the verifier, 401 with the
  -- challenge that names the metadata URL.
  pub authenticated-eq-err :
      (r : AuthRejection)
      → authenticated jwt now fetched authorization config ≡ (err r, config')
      → ((r ≡ no_access)
          × ((¬ ((token : Text) × Bearer authorization token))
              ⊎ ((e : VerifyError) × (e ≢ keys_unavailable) × Fails e)))
        ⊎ ((r ≡ unavailable) × Fails keys_unavailable)
  unfolding authenticated unauthorized challenge_unauthorized
  authenticated-eq-err r e = elim (Option-cases (bearer_token authorization)) [
    | inl missing ↦ inl (
      ground (arith, missing),
      inl (λ h. absurd (ground (arith, missing, (bearer_token_iff authorization h.0).1 h.1))),
    )
    | inr (token, given) ↦
        let (error, checked, same) =
          answer-eq-err (verify jwt now fetched token config.verifier) r (ground (arith, given)) in
        Refused-for r error (token, (bearer_token_iff authorization token).0 given, checked) same
  ]
