-- ===== src/Oauth/Exchange/Outcome.antt =====
-- `exchange_code` as a whole: when it answers, with which tokens, and what a replayed code does.
use drone_dispatch.Clock.{Clock}
use drone_dispatch.Common.{
  ◌≡◌, true, false, none, some, arith, ℕ, is_some, refl, ◌++◌, ◌∷◌, [], leb, ◌||◌, not,
}
use drone_dispatch.Common.Exec.{finish, ok, err, continue, pure}
use drone_dispatch.Common.Table.{find, at, update, insert}
use drone_dispatch.Crypto.{Primitives, hash_token, pkce_s256, hashes_match}
use drone_dispatch.Crypto.Matching.{hashes_match_iff}
use drone_dispatch.Db.{Db, AuthCode, Grant}
use drone_dispatch.Oauth.{
  Draw, Tokens, TokenForm, load_grant, new_refresh_token, invalid_grant, token_response, token_row,
}
use drone_dispatch.Oauth.Exchange.{
  exchange_code, exchange_row, of_code, issue_for_code, consume, is_redirect,
}
use drone_dispatch.Oauth.Exchange.Issue.{Guards, issue_for_code-Guards}
use drone_dispatch.Oauth.Reuse.{revoke_grant-revokes}
use drone_dispatch.Oauth.Revocation.{is_revoked}
use drone_dispatch.Registry.{Client}
use drone_dispatch.Text.{Text, same}
use drone_dispatch.Text.Equality.{same_iff, same_self}
use drone_dispatch.Text.Keyed.{by}

-- The rows that a form leads to: the code's row, and its grant.
pub record Presents (crates : Primitives) (form : TokenForm) (db : Db) (verifier : Text)
    (row : AuthCode) (grant : Grant) : Type 0 where
  pub code : Text
  pub has_code : form.code ≡ some code
  pub has_verifier : form.code_verifier ≡ some verifier
  pub has_row : find (of_code (hash_token crates code)) db.auth_codes ≡ some row
  pub has_grant : find (at (λ g. g.id) row.grant_id) db.grants ≡ some grant

module _ (crates : Primitives) (issuer : Text) (clock : Clock) (draw : Draw) (client : Client)
    (form : TokenForm) where
  pub Presents-exchange_code :
      (db : Db) (verifier : Text) (row : AuthCode) (grant : Grant)
      → Presents crates form db verifier row grant
      → exchange_code crates issuer clock draw client form db
        ≡ finish db (exchange_row crates issuer clock draw client form verifier row db)
  unfolding exchange_code
  Presents-exchange_code db verifier row grant p = rw (p.has_code, p.has_verifier, p.has_row) refl

  -- With the code's row and grant stored, the exchange succeeds only for an unconsumed code that is
  -- not expired, of a grant that is not revoked and belongs to this client, with the redirect URI and
  -- the PKCE verifier of the authorization request.
  pub exchange_code-Guards :
      (db db' : Db) (verifier : Text) (row : AuthCode) (grant : Grant) (tokens : Tokens)
      → Presents crates form db verifier row grant
      → exchange_code crates issuer clock draw client form db ≡ (ok tokens, db')
      → (row.consumed_at ≡ none) × Guards crates issuer clock draw client form verifier row grant
  unfolding exchange_row load_grant
  exchange_code-Guards db db' verifier row grant tokens p e = ground (
    arith,
    Presents-exchange_code db verifier row grant p,
    p.has_grant,
    issue_for_code-Guards crates issuer clock draw client form verifier row grant db db'
        (ok tokens),
  )

  abbrev issued : AuthCode → Grant → Db → Db
  issued row grant db = record db {
    auth_codes = update (of_code row.code_hash) (consume clock.db_now) db.auth_codes;
    refresh_tokens = db.refresh_tokens ++ token_row crates clock draw.token grant.id client ∷ [];
  }

  -- Past the guards, the code is consumed and a refresh token is stored.
  pub passes :
      (verifier : Text) (row : AuthCode) (grant : Grant) (db : Db)
      → Guards crates issuer clock draw client form verifier row grant
      → issue_for_code crates issuer clock draw client form verifier row grant db
        ≡ continue
            (λ t. pure (ok (token_response issuer clock draw.jti grant t)))
            (new_refresh_token crates clock draw.token grant.id client (record db {
              auth_codes = update (of_code row.code_hash) (consume clock.db_now) db.auth_codes;
            }))
  unfolding issue_for_code
  passes verifier row grant db g =
      let live : (leb row.expires_at clock.db_now
            || is_some grant.revoked_at
            || not (same grant.client_id client.client_id))
          ≡ false =
        ground (
          arith,
          g.unexpired,
          g.unrevoked,
          g.own_client,
          same_iff grant.client_id client.client_id,
        ) in
      let goes_back : is_redirect form.redirect_uri row.redirect_uri ≡ true =
        rw g.own_redirect (same_self row.redirect_uri) in
      let proved : hashes_match (pkce_s256 crates verifier) row.code_challenge ≡ true =
        (hashes_match_iff (pkce_s256 crates verifier) row.code_challenge).1 g.proof in
      rw (live, goes_back, proved) refl

  issue_for_code-issues :
      (verifier : Text) (row : AuthCode) (grant : Grant) (db : Db)
      → Guards crates issuer clock draw client form verifier row grant
      → find (by (λ t. t.token_hash) (hash_token crates draw.token)) db.refresh_tokens ≡ none
      → issue_for_code crates issuer clock draw client form verifier row grant db
        ≡ (ok (ok (token_response issuer clock draw.jti grant draw.token)), issued row grant db)
  unfolding new_refresh_token insert
  issue_for_code-issues verifier row grant db g fresh =
      rw (passes verifier row grant db g) (ground (arith, fresh))

  -- With the guards met, the code unconsumed and the hash of the new refresh token unused, the exchange
  -- answers with the tokens of the grant, consumes the code and stores the refresh token.
  pub exchange_code-issues :
      (db : Db) (verifier : Text) (row : AuthCode) (grant : Grant)
      → Presents crates form db verifier row grant
      → row.consumed_at ≡ none
      → Guards crates issuer clock draw client form verifier row grant
      → find (by (λ t. t.token_hash) (hash_token crates draw.token)) db.refresh_tokens ≡ none
      → exchange_code crates issuer clock draw client form db
        ≡ (ok (token_response issuer clock draw.jti grant draw.token), issued row grant db)
  unfolding exchange_row load_grant
  exchange_code-issues db verifier row grant p unused g fresh =
      rw (Presents-exchange_code db verifier row grant p, p.has_grant, unused)
        (ground (arith, issue_for_code-issues verifier row grant db g fresh))

  -- A code that was exchanged before: the reply is an error, and its grant is revoked.
  pub replayed_code_revokes :
      (db : Db) (verifier : Text) (row : AuthCode) (grant : Grant) (used : ℕ)
      → Presents crates form db verifier row grant
      → row.consumed_at ≡ some used
      → find (at (λ o. o.id) draw.event_id) db.outbox ≡ none
      → ((exchange_code crates issuer clock draw client form db).0
          ≡ err (invalid_grant "Authorization code already used"))
        × (is_revoked (exchange_code crates issuer clock draw client form db).1 grant.id ≡ true)
  unfolding exchange_row load_grant
  replayed_code_revokes db verifier row grant used p was fresh =
      let revokes =
        revoke_grant-revokes clock draw.event_id row.grant_id grant db p.has_grant fresh in
      rw (Presents-exchange_code db verifier row grant p)
        (ground (arith, p.has_grant, was, revokes))
