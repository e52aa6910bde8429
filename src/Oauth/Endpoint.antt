-- ===== src/Oauth/Endpoint.antt =====
-- oauth.rs: `/token` and `/revoke`.
use drone_dispatch.Clock.{Clock}
use drone_dispatch.Common.{Bool, true, false, not, Option, none, some, List, [], ◌∷◌, if◌then◌else◌}
use drone_dispatch.Common.Exec.{
  Result, ok, pure, fail, ok_or, gets, reject_if, transaction, ◌>>=◌, ◌>>◌,
}
use drone_dispatch.Common.Table.{find}
use drone_dispatch.Crypto.{Primitives, hash_token, hashes_match}
use drone_dispatch.Db.{Db, RefreshToken}
use drone_dispatch.Oauth.{
  OauthError, invalid_client, TokenForm, Tokens, Draw, Action, load_grant, revoke_grant,
}
use drone_dispatch.Oauth.Exchange.{exchange_code}
use drone_dispatch.Oauth.Refresh.{of_token, refresh}
use drone_dispatch.Registry.{Client, find_client}
use drone_dispatch.Text.{Text, text, same}

-- What `authenticate_client` takes the client's id and secret from: the `Authorization` header, as
-- `basic_auth` decoded it, or else the form.
unfoldable pub presented : Option (Text × Text) → TokenForm → Action (Text × Option Text)
presented none form = do
  client_id ← ok_or form.client_id invalid_client
  pure (client_id, form.client_secret)
presented (some (client_id, secret)) form = pure (client_id, some secret)

-- `if let Some((grant_id,)) = row`
unfoldable pub revoke_found :
    Clock → Draw → Option RefreshToken → Action (Result OauthError (Unit {0}))
unfolding load_grant revoke_grant
revoke_found clock draw none = pure (ok tt)
revoke_found clock draw (some row) = do
  grant ← load_grant row.grant_id
  revoke_grant clock draw.event_id grant
  pure (ok tt)

module _ (crates : Primitives) where
  -- The `match` on the stored hash and the secret: a public client has neither.
  unfoldable pub has_secret : Option Text → Option Text → Bool
  has_secret none none = true
  has_secret none (some secret) = false
  has_secret (some expected) none = false
  has_secret (some expected) (some secret) = hashes_match expected (hash_token crates secret)

  unfoldable pub authenticate_client : Option (Text × Text) → TokenForm → Action Client
  unfolding presented has_secret find_client
  authenticate_client basic form = do
    (client_id, secret) ← presented basic form
    found ← gets (λ db. find_client db client_id)
    client ← ok_or found invalid_client
    reject_if (not (has_secret client.secret_hash secret)) invalid_client
    pure client

  -- RFC 7009: the reply is the same whether or not the token is known.
  unfoldable pub revoke : Clock → Draw → Text → Action (Unit {0})
  unfolding revoke_found
  revoke clock draw token = transaction (do
    found ← gets (λ db. find (of_token (hash_token crates token)) db.refresh_tokens)
    revoke_found clock draw found)

abbrev pub unsupported_grant_type : OauthError
unsupported_grant_type = record {
  status = 400;
  error = "unsupported_grant_type";
  description = "Use authorization_code or refresh_token";
}

module _ (crates : Primitives) (issuer : Text) where
  -- The `match` on `grant_type`.
  unfoldable pub grant_tokens : Clock → Draw → TokenForm → Client → Action Tokens
  grant_tokens clock draw form client =
      if same form.grant_type (text "authorization_code")
      then exchange_code crates issuer clock draw client form
      else if same form.grant_type (text "refresh_token")
      then refresh crates issuer clock draw client form
      else fail unsupported_grant_type

  unfoldable pub token : Clock → Draw → Option (Text × Text) → TokenForm → Action Tokens
  token clock draw basic form = do
    client ← authenticate_client crates basic form
    grant_tokens clock draw form client

-- A request to the two endpoints, with the times and the random values that its handler reads.
pub data Request : Type 0 where
  asks_token : Option (Text × Text) → TokenForm → Request
  revokes : Text → Request

pub record Arrival : Type 0 where
  pub clock : Clock
  pub draw : Draw
  pub request : Request

module _ (crates : Primitives) (issuer : Text) where
  unfoldable pub handle : Clock → Draw → Request → Db → Db
  handle clock draw (asks_token basic form) db = (token crates issuer clock draw basic form db).1
  handle clock draw (revokes token) db = (revoke crates clock draw token db).1

  unfoldable pub run : Db → List Arrival → Db
  unfolding handle
  run db [] = db
  run db (a ∷ rest) = run (handle a.clock a.draw a.request db) rest
