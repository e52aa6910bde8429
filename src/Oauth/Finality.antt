-- ===== src/Oauth/Finality.antt =====
-- The token endpoint at any later time: no tokens come from a grant that was revoked or from a code
-- that was exchanged.
use mathlib.Core.Bool.{false≢true}
use drone_dispatch.Clock.{Clock}
use drone_dispatch.Common.{◌≡◌, ◌≢◌, sym, ap, ◌∙◌, true, false, Option, some, List, inl, inr, ℕ}
use drone_dispatch.Crypto.{Primitives, hash_token}
use drone_dispatch.Db.{Db}
use drone_dispatch.Oauth.{TokenForm, Tokens, Draw, ok}
use drone_dispatch.Oauth.Endpoint.{token, Arrival, run}
use drone_dispatch.Oauth.Revocation.{is_revoked, run-Keeps, is_consumed}
use drone_dispatch.Oauth.Success.{
  token-eq-ok, refresh-gid, exchange_code-has_code, exchange_code-gid, exchange_code-consumes,
}
use drone_dispatch.Text.{Text, text}

module _ (crates : Primitives) (issuer : Text) where
  -- A successful reply carries a grant that the database held unrevoked.
  token-gid :
      (clock : Clock) (draw : Draw) (basic : Option (Text × Text)) (form : TokenForm) (db db' : Db)
      (tokens : Tokens)
      → token crates issuer clock draw basic form db ≡ (ok tokens, db')
      → is_revoked db tokens.access_token.gid ≡ false
  token-gid clock draw basic form db db' tokens e =
      let (client, answer) = token-eq-ok crates issuer clock draw basic form db db' tokens e in
      elim answer [
        | inl (_, from_code) ↦
            let (code, given) =
              exchange_code-has_code crates issuer clock draw client form db db' tokens from_code in
            (exchange_code-gid crates issuer clock draw client form code db db' tokens given
              from_code).0
        | inr (_, from_token) ↦
            refresh-gid crates issuer clock draw client form db db' tokens from_token
      ]

  -- Once a grant is revoked, whatever requests the two endpoints serve, no successful reply of the
  -- token endpoint carries that grant.
  pub revoked_grant_final :
      (clock : Clock) (draw : Draw) (basic : Option (Text × Text)) (form : TokenForm)
      (arrivals : List Arrival) (gid : ℕ) (db db' : Db) (tokens : Tokens)
      → is_revoked db gid ≡ true
      → token crates issuer clock draw basic form (run crates issuer db arrivals) ≡ (ok tokens, db')
      → tokens.access_token.gid ≢ gid
  revoked_grant_final clock draw basic form arrivals gid db db' tokens gone e p = false≢true (
      sym (token-gid clock draw basic form (run crates issuer db arrivals) db' tokens e)
      ∙ ap (is_revoked (run crates issuer db arrivals)) p
      ∙ (run-Keeps crates issuer arrivals db).revoked gid gone)

  consumed_by_token :
      (clock : Clock) (draw : Draw) (basic : Option (Text × Text)) (form : TokenForm) (code : Text)
      (db db' : Db) (tokens : Tokens)
      → form.grant_type ≡ text "authorization_code"
      → form.code ≡ some code
      → token crates issuer clock draw basic form db ≡ (ok tokens, db')
      → (is_consumed db (hash_token crates code) ≡ false)
        × (is_consumed db' (hash_token crates code) ≡ true)
  consumed_by_token clock draw basic form code db db' tokens kind given e =
      let (client, answer) = token-eq-ok crates issuer clock draw basic form db db' tokens e in
      elim answer [
        | inl (_, from_code) ↦ (
          (exchange_code-gid crates issuer clock draw client form code db db' tokens given
              from_code).1,
          exchange_code-consumes crates issuer clock draw client form code db db' tokens given
              from_code,
        )
        | inr (other, _) ↦ absurd (other kind)
      ]

  -- Once a request has exchanged a code for tokens, whatever requests the two endpoints serve, no
  -- request with the grant type `authorization_code` gets tokens for that code again.
  pub code_single_use :
      (clock clock' : Clock) (draw draw' : Draw) (basic basic' : Option (Text × Text))
      (form form' : TokenForm) (code : Text) (arrivals : List Arrival) (db db' db'' : Db)
      (tokens tokens' : Tokens)
      → form.grant_type ≡ text "authorization_code"
      → form'.grant_type ≡ text "authorization_code"
      → form.code ≡ some code
      → form'.code ≡ some code
      → token crates issuer clock draw basic form db ≡ (ok tokens, db')
      → token crates issuer clock' draw' basic' form' (run crates issuer db' arrivals)
        ≢ (ok tokens', db'')
  code_single_use clock clock' draw draw' basic basic' form form' code arrivals db db' db'' tokens
        tokens' kind kind' given given' e e' =
      let used = (consumed_by_token clock draw basic form code db db' tokens kind given e).1 in
      let later : Db = run crates issuer db' arrivals in
      let unused =
        (consumed_by_token clock' draw' basic' form' code later db'' tokens' kind' given' e').0 in
      false≢true
        (sym unused ∙ (run-Keeps crates issuer arrivals db').consumed (hash_token crates code) used)
