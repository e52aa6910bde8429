-- ===== src/Oauth/Success.antt =====
-- What a successful reply of the token endpoint says of the database before it and after it.
use drone_dispatch.Clock.{Clock}
use drone_dispatch.Common.{
  ◌≡◌, ◌≢◌, refl, true, false, Option, none, some, arith, Option-cases, inl, inr, ◌⊎◌, ap, ◌∙◌,
}
use drone_dispatch.Common.Exec.{Result, ok, ok_or}
use drone_dispatch.Common.Exec.Inversion.{bind-eq-ok}
use drone_dispatch.Common.Table.{find, at, id_of_found, find-update}
use drone_dispatch.Crypto.{Primitives, hash_token}
use drone_dispatch.Db.{Db, Grant, AuthCode, RefreshToken}
use drone_dispatch.Oauth.{
  OauthError, TokenForm, Tokens, Draw, load_grant, token_response, new_refresh_token,
  invalid_request,
}
use drone_dispatch.Oauth.Endpoint.{authenticate_client, token, grant_tokens}
use drone_dispatch.Oauth.Exchange.{of_code, issue_for_code, exchange_row, exchange_code, consume}
use drone_dispatch.Oauth.Refresh.{of_token, slide_token, rotate_token, refresh_row, refresh}
use drone_dispatch.Oauth.Revocation.{is_revoked, is_consumed}
use drone_dispatch.Registry.{Client}
use drone_dispatch.Text.{Text, text}
use drone_dispatch.Text.Equality.{same_self, same_iff}
use drone_dispatch.Text.Keyed.{key_of_found}

module _ (crates : Primitives) (issuer : Text) (clock : Clock) (draw : Draw) (client : Client) where
  issue_for_code-gid :
      (form : TokenForm) (verifier : Text) (row : AuthCode) (grant : Grant) (db db' : Db)
      (tokens : Tokens)
      → issue_for_code crates issuer clock draw client form verifier row grant db
        ≡ (ok (ok tokens), db')
      → (grant.revoked_at ≡ none) × (tokens.access_token.gid ≡ grant.id)
  unfolding issue_for_code token_response
  issue_for_code-gid form verifier row grant db db' tokens e = ground arith

  exchange_row-gid :
      (form : TokenForm) (verifier : Text) (row : AuthCode) (db db' : Db) (tokens : Tokens)
      → exchange_row crates issuer clock draw client form verifier row db ≡ (ok (ok tokens), db')
      → (is_revoked db tokens.access_token.gid ≡ false) × (row.consumed_at ≡ none)
  unfolding exchange_row load_grant is_revoked
  exchange_row-gid form verifier row db db' tokens e =
      elim (Option-cases (find (at (λ g. g.id) row.grant_id) db.grants)) [
        | inl missing ↦ ground (arith, missing)
        | inr (grant, found) ↦ ground (
          arith,
          found,
          id_of_found (λ (g : Grant). g.id) row.grant_id db.grants found,
          issue_for_code-gid form verifier row grant db db' tokens,
        )
      ]

  pub exchange_code-gid :
      (form : TokenForm) (code : Text) (db db' : Db) (tokens : Tokens)
      → form.code ≡ some code
      → exchange_code crates issuer clock draw client form db ≡ (ok tokens, db')
      → (is_revoked db tokens.access_token.gid ≡ false)
        × (is_consumed db (hash_token crates code) ≡ false)
  unfolding exchange_code is_consumed
  exchange_code-gid form code db db' tokens p e = elim (Option-cases form.code_verifier) [
    | inl missing ↦ ground (arith, missing)
    | inr (verifier, given) ↦
        elim (Option-cases (find (of_code (hash_token crates code)) db.auth_codes)) [
          | inl unknown ↦ ground (arith, given, unknown)
          | inr (row, found) ↦
              ground (arith, given, found, exchange_row-gid form verifier row db db' tokens)
        ]
  ]

  pub exchange_code-has_code :
      (form : TokenForm) (db db' : Db) (tokens : Tokens)
      → exchange_code crates issuer clock draw client form db ≡ (ok tokens, db')
      → (code : Text) × (form.code ≡ some code)
  unfolding exchange_code
  exchange_code-has_code form db db' tokens e =
      let (code, given, _) =
        bind-eq-ok (ok_or form.code (invalid_request "code is required")) _ db e in
      (code, ground arith)

  refresh_row-gid :
      (token : Text) (row : RefreshToken) (db db' : Db) (tokens : Tokens)
      → refresh_row crates issuer clock draw client token row db ≡ (ok (ok tokens), db')
      → is_revoked db tokens.access_token.gid ≡ false
  unfolding refresh_row slide_token rotate_token token_response load_grant is_revoked
  refresh_row-gid token row db db' tokens e =
      elim (Option-cases (find (at (λ g. g.id) row.grant_id) db.grants)) [
        | inl missing ↦ ground (arith, missing)
        | inr (grant, found) ↦
            ground (arith, found, id_of_found (λ (g : Grant). g.id) row.grant_id db.grants found)
      ]

  pub refresh-gid :
      (form : TokenForm) (db db' : Db) (tokens : Tokens)
      → refresh crates issuer clock draw client form db ≡ (ok tokens, db')
      → is_revoked db tokens.access_token.gid ≡ false
  unfolding refresh
  refresh-gid form db db' tokens e = elim (Option-cases form.refresh_token) [
    | inl missing ↦ ground (arith, missing)
    | inr (token, given) ↦
        elim (Option-cases (find (of_token (hash_token crates token)) db.refresh_tokens)) [
          | inl unknown ↦ ground (arith, given, unknown)
          | inr (row, found) ↦ ground (arith, given, found, refresh_row-gid token row db db' tokens)
        ]
  ]

  issue_for_code-consumes :
      (form : TokenForm) (verifier : Text) (row : AuthCode) (grant : Grant) (db db' : Db)
      (tokens : Tokens)
      → find (of_code row.code_hash) db.auth_codes ≡ some row
      → issue_for_code crates issuer clock draw client form verifier row grant db
        ≡ (ok (ok tokens), db')
      → is_consumed db' row.code_hash ≡ true
  unfolding issue_for_code new_refresh_token is_consumed
  issue_for_code-consumes form verifier row grant db db' tokens found e = ground (
    arith,
    found,
    same_self row.code_hash,
    find-update (of_code row.code_hash) (of_code row.code_hash) (consume clock.db_now) db.auth_codes
        (λ c. refl),
  )

  exchange_row-consumes :
      (form : TokenForm) (verifier : Text) (row : AuthCode) (db db' : Db) (tokens : Tokens)
      → find (of_code row.code_hash) db.auth_codes ≡ some row
      → exchange_row crates issuer clock draw client form verifier row db ≡ (ok (ok tokens), db')
      → is_consumed db' row.code_hash ≡ true
  unfolding exchange_row load_grant
  exchange_row-consumes form verifier row db db' tokens here e =
      elim (Option-cases (find (at (λ g. g.id) row.grant_id) db.grants)) [
        | inl missing ↦ ground (arith, missing)
        | inr (grant, found) ↦
            ground
              (arith, found, issue_for_code-consumes form verifier row grant db db' tokens here)
      ]

  pub exchange_code-consumes :
      (form : TokenForm) (code : Text) (db db' : Db) (tokens : Tokens)
      → form.code ≡ some code
      → exchange_code crates issuer clock draw client form db ≡ (ok tokens, db')
      → is_consumed db' (hash_token crates code) ≡ true
  unfolding exchange_code
  exchange_code-consumes form code db db' tokens p e = elim (Option-cases form.code_verifier) [
    | inl missing ↦ ground (arith, missing)
    | inr (verifier, given) ↦
        elim (Option-cases (find (of_code (hash_token crates code)) db.auth_codes)) [
          | inl unknown ↦ ground (arith, given, unknown)
          | inr (row, found) ↦
              let same_hash : row.code_hash ≡ hash_token crates code =
                key_of_found (λ (c : AuthCode). c.code_hash) _ db.auth_codes found in
              ground (
                arith,
                given,
                found,
                same_hash,
                exchange_row-consumes form verifier row db db' tokens
                    (ap (λ h. find (of_code h) db.auth_codes) same_hash ∙ found),
              )
        ]
  ]

pub authenticate_client-reads :
    (crates : Primitives) (basic : Option (Text × Text)) (form : TokenForm) (db : Db)
    → (authenticate_client crates basic form db).1 ≡ db
unfolding authenticate_client
authenticate_client-reads crates none form db = ground arith
authenticate_client-reads crates (some (client_id, secret)) form db = ground arith

abbrev Answer : Type 0
Answer = Result OauthError Tokens × Db

module _ (crates : Primitives) (issuer : Text) (clock : Clock) (draw : Draw)
    (basic : Option (Text × Text)) (form : TokenForm) (db db' : Db) (tokens : Tokens) where
  abbrev pub FromExchange : Client → Type 0
  FromExchange client = exchange_code crates issuer clock draw client form db ≡ (ok tokens, db')

  abbrev pub FromRefresh : Client → Type 0
  FromRefresh client = refresh crates issuer clock draw client form db ≡ (ok tokens, db')

  -- A successful answer to a grant type comes from one of the two exchanges.
  grant_tokens-eq-ok :
      (client : Client)
      → grant_tokens crates issuer clock draw form client db ≡ (ok tokens, db')
      → ((form.grant_type ≡ text "authorization_code") × FromExchange client)
        ⊎ ((form.grant_type ≢ text "authorization_code") × FromRefresh client)
  unfolding grant_tokens
  grant_tokens-eq-ok client e = ground (arith, same_iff form.grant_type (text "authorization_code"))

  pub token-eq-ok :
      token crates issuer clock draw basic form db ≡ (ok tokens, db')
      → (client : Client) × (((form.grant_type ≡ text "authorization_code") × FromExchange client)
          ⊎ ((form.grant_type ≢ text "authorization_code") × FromRefresh client))
  unfolding token
  token-eq-ok e =
      let (client, known, rest) = bind-eq-ok (authenticate_client crates basic form) _ db e in
      (
        client,
        grant_tokens-eq-ok client (rw (authenticate_client-reads crates basic form db) at rest),
      )
