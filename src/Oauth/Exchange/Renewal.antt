-- ===== src/Oauth/Exchange/Renewal.antt =====
-- From a code to tokens and on: the refresh token that an exchange hands out.
use mathlib.Core.Path.{subst}
use drone_dispatch.Clock.{Clock, days}
use drone_dispatch.Common.{
  ◌≡◌, ◌<◌, ◌≤◌, Bool-cases, ◌+◌, none, some, arith, is_some, ◌++◌, ◌∷◌, [], Option-cases, inl, inr,
  sym, ◌∙◌, ap, refl,
}
use drone_dispatch.Common.Exec.{ok}
use drone_dispatch.Common.Table.{find, find-update, at, update, insert, find-append, id_of_found}
use drone_dispatch.Crypto.{Primitives, hash_token}
use drone_dispatch.Db.{Db, AuthCode, Grant, RefreshToken}
use drone_dispatch.Oauth.{
  Draw, Tokens, TokenForm, load_grant, new_refresh_token, token_response, token_row, lifetime,
}
use drone_dispatch.Oauth.Exchange.{exchange_code, exchange_row, of_code, consume}
use drone_dispatch.Oauth.Exchange.Outcome.{
  Presents, Presents-exchange_code, exchange_code-Guards, exchange_code-issues, passes,
}
use drone_dispatch.Oauth.Refresh.{refresh}
use drone_dispatch.Oauth.Refresh.Outcome.{Usable, rotate_lem, refresh-slides}
use drone_dispatch.Registry.{Client}
use drone_dispatch.Text.{Text}
use drone_dispatch.Text.Equality.{same_self}
use drone_dispatch.Text.Keyed.{by, key_of_found}

at_least_30_days : (client : Client) → days 30 ≤ days (lifetime client)
at_least_30_days client = elim (Bool-cases (is_some client.secret_hash)) [
  | inl confidential ↦ ground (arith, confidential)
  | inr public ↦ ground (arith, public)
]

module _ (crates : Primitives) (issuer : Text) (clock : Clock) (draw : Draw) (client : Client)
    (form : TokenForm) where
  -- A usable token that was never exchanged gets tokens, from either kind of client.
  Usable-refreshes :
      (db : Db) (token : Text) (row : RefreshToken) (grant : Grant)
      → Usable crates clock client form db token row grant
      → row.rotated_at ≡ none
      → find (by (λ t. t.token_hash) (hash_token crates draw.token)) db.refresh_tokens ≡ none
      → (next : Text) × ((refresh crates issuer clock draw client form db).0
          ≡ ok (token_response issuer clock draw.jti grant next))
  Usable-refreshes db token row grant p never fresh = elim (Option-cases client.secret_hash) [
    | inl public ↦ (
      draw.token,
      ap (λ r. r.0)
          (rotate_lem crates issuer clock draw client form db token row grant p public (inl never)
            fresh),
    )
    | inr (secret, confidential) ↦ (
      token,
      ap (λ r. r.0)
          (refresh-slides crates issuer clock draw client form db token secret row grant p
            confidential),
    )
  ]

module _ (crates : Primitives) (issuer : Text) (clock : Clock) (draw : Draw) (client : Client)
    (form : TokenForm) where
  -- An exchange that succeeds drew a refresh token whose hash was unused.
  exchange_code-fresh :
      (db db' : Db) (verifier : Text) (row : AuthCode) (grant : Grant) (tokens : Tokens)
      → Presents crates form db verifier row grant
      → exchange_code crates issuer clock draw client form db ≡ (ok tokens, db')
      → find (by (λ t. t.token_hash) (hash_token crates draw.token)) db.refresh_tokens ≡ none
  unfolding exchange_row load_grant new_refresh_token insert
  exchange_code-fresh db db' verifier row grant tokens p e =
      let (unused, guards) =
        exchange_code-Guards crates issuer clock draw client form db db' verifier row grant tokens p
          e in
      elim (Option-cases (
        find (by (λ (t : RefreshToken). t.token_hash) (hash_token crates draw.token))
          db.refresh_tokens)) [
            | inl fresh ↦ fresh
            | inr (t, taken) ↦ absurd (
                ground (
                  arith,
                  Presents-exchange_code crates issuer clock draw client form db verifier row grant
                      p,
                  p.has_grant,
                  unused,
                  passes crates issuer clock draw client form verifier row grant db guards,
                  taken,
                  e,
                ))
          ]

  -- A client that exchanges a code gets an access token for the grant's user, and the code is consumed now.
  -- For 30 days, while nothing else happens, the refresh token that it got is accepted from it in turn, if
  -- the hash of the next refresh token is unused, with an access token of the same grant and user.
  pub exchange_code-refresh :
      (db db' : Db) (verifier : Text) (row : AuthCode) (grant : Grant) (tokens : Tokens)
      (clock' : Clock) (draw' : Draw) (form' : TokenForm)
      → Presents crates form db verifier row grant
      → exchange_code crates issuer clock draw client form db ≡ (ok tokens, db')
      → form'.refresh_token ≡ some tokens.refresh_token
      → clock'.db_now < clock.db_now + days 30
      → find (by (λ t. t.token_hash) (hash_token crates draw'.token)) db'.refresh_tokens ≡ none
      → (find (of_code row.code_hash) db'.auth_codes
          ≡ some (record row { consumed_at = some clock.db_now }))
        × (tokens.access_token.sub ≡ grant.user_id)
        × (tokens.access_token.gid ≡ grant.id)
        × (tokens.access_token.scope ≡ grant.scope)
        × (tokens' : Tokens) × ((refresh crates issuer clock' draw' client form' db').0
            ≡ ok tokens')
        × (tokens'.access_token.sub ≡ grant.user_id)
        × (tokens'.access_token.gid ≡ grant.id)
        × (tokens'.access_token.scope ≡ grant.scope)
  unfolding token_response
  exchange_code-refresh db db' verifier row grant tokens clock' draw' form' p e given later fresh' =
      let (unused, guards) =
        exchange_code-Guards crates issuer clock draw client form db db' verifier row grant tokens p
          e in
      let fresh = exchange_code-fresh db db' verifier row grant tokens p e in
      let issues =
        exchange_code-issues crates issuer clock draw client form db verifier row grant p unused
          guards fresh in
      let hash = hash_token crates draw.token in
      let new = token_row crates clock draw.token grant.id client in
      let same_tokens : token_response issuer clock draw.jti grant draw.token ≡ tokens =
        ground (arith, issues, e) in
      let same_codes : db'.auth_codes
          ≡ update (of_code row.code_hash) (consume clock.db_now) db.auth_codes =
        ap (λ r. r.1.auth_codes) (sym e ∙ issues) in
      let same_refresh : db'.refresh_tokens ≡ db.refresh_tokens ++ new ∷ [] =
        ap (λ r. r.1.refresh_tokens) (sym e ∙ issues) in
      let same_grants : db'.grants ≡ db.grants = ap (λ r. r.1.grants) (sym e ∙ issues) in
      let usable : Usable crates clock' client form' db' draw.token new grant = record {
        has_token = ground (arith, given, same_tokens);
        has_row = ground (
          arith,
          same_refresh,
          fresh,
          find-append (by (λ (t : RefreshToken). t.token_hash) hash) db.refresh_tokens new,
          same_self hash,
        );
        has_grant = rw same_grants (
            subst (λ k. find (at (λ g. g.id) k) db.grants ≡ some grant)
              (sym (id_of_found (λ (g : Grant). g.id) row.grant_id db.grants p.has_grant))
              p.has_grant);
        unexpired = omega (arith, later, at_least_30_days client);
        live = refl;
        unrevoked = guards.unrevoked;
        own_client = guards.own_client;
      } in
      let (next, refreshed) =
        Usable-refreshes crates issuer clock' draw' client form' db' draw.token new grant usable
          refl fresh' in
      (
        ground (
          arith,
          same_codes,
          find-update (of_code row.code_hash) (of_code row.code_hash) (consume clock.db_now)
              db.auth_codes (λ c. refl),
          p.has_row,
          key_of_found (λ (c : AuthCode). c.code_hash) (hash_token crates p.code) db.auth_codes
              p.has_row,
          same_self row.code_hash,
        ),
        ground (arith, same_tokens),
        ground (arith, same_tokens),
        ground (arith, same_tokens),
        token_response issuer clock' draw'.jti grant next,
        refreshed,
        refl,
        refl,
        refl,
      )
