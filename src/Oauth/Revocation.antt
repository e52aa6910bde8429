-- ===== src/Oauth/Revocation.antt =====
-- What the token endpoint never takes back: a revoked grant stays revoked, and a consumed code stays
-- consumed.
use drone_dispatch.Clock.{Clock}
use drone_dispatch.Common.{
  ℕ, ◌≡◌, refl, Bool, true, List, arith, is_some, is_some_and, Option, ◌∷◌, some, none, [],
}
use drone_dispatch.Common.Exec.{modify}
use drone_dispatch.Common.Exec.Moves.{Moves, Moves-ok_or, IsPreorder, moves_rules}
use drone_dispatch.Common.Table.{find, update, at, find-update}
use drone_dispatch.Crypto.{Primitives}
use drone_dispatch.Db.{Db, Grant, AuthCode, RefreshToken}
use drone_dispatch.Oauth.{
  OauthError, server_error, TokenForm, Draw, load_grant, revoke_grant, new_refresh_token,
  is_live_grant, revoke_row,
}
use drone_dispatch.Oauth.Endpoint.{
  presented, authenticate_client, token, revoke_found, revoke, Request, asks_token, revokes,
  Arrival, handle, run, grant_tokens,
}
use drone_dispatch.Oauth.Exchange.{of_code, consume, issue_for_code, exchange_row, exchange_code}
use drone_dispatch.Oauth.Refresh.{slide_token, rotate_token, refresh_row, refresh}
use drone_dispatch.Registry.{Client}
use drone_dispatch.Text.{Text}

unfoldable pub is_revoked : Db → ℕ → Bool
is_revoked db id = is_some_and (find (at (λ g. g.id) id) db.grants) (λ g. is_some g.revoked_at)

unfoldable pub is_consumed : Db → Text → Bool
is_consumed db hash = is_some_and (find (of_code hash) db.auth_codes) (λ c. is_some c.consumed_at)

-- The second state keeps what the first has revoked and consumed.
pub record Keeps (db db' : Db) : Type 0 where
  pub revoked : (id : ℕ) → is_revoked db id ≡ true → is_revoked db' id ≡ true
  pub consumed : (hash : Text) → is_consumed db hash ≡ true → is_consumed db' hash ≡ true

pub Keeps-preorder : IsPreorder Keeps
Keeps-preorder = record {
  same = λ db. record { revoked = λ id h. h; consumed = λ hash h. h };
  chain = λ a b c h k. record {
    revoked = λ id r. k.revoked id (h.revoked id r);
    consumed = λ hash r. k.consumed hash (h.consumed hash r);
  };
}

revoke_grant-Keeps :
    (clock : Clock) (event_id : ℕ) (grant : Grant) → Moves Keeps (revoke_grant clock event_id grant)
unfolding revoke_grant is_revoked is_consumed
revoke_grant-Keeps clock event_id grant = record {
  along = λ db. record {
    revoked = λ id h. ground (
      arith,
      find-update (at (λ g. g.id) id) (is_live_grant grant.id) (revoke_row clock.db_now) db.grants
          (λ g. refl),
    );
    consumed = λ hash h. ground arith;
  };
}

load_grant-Keeps : (id : ℕ) → Moves Keeps (load_grant id)
unfolding load_grant
load_grant-Keeps id = record {
  along =
      λ db. (Moves-ok_or Keeps-preorder (find (at (λ g. g.id) id) db.grants) server_error).along db;
}

new_refresh_token-Keeps :
    (crates : Primitives) (clock : Clock) (token : Text) (id : ℕ) (client : Client)
    → Moves Keeps (new_refresh_token crates clock token id client)
unfolding new_refresh_token is_revoked is_consumed
new_refresh_token-Keeps crates clock token id client = record {
  along = λ db. record { revoked = λ i h. ground arith; consumed = λ hash h. ground arith };
}

consume-Keeps :
    (clock : Clock) (hash : Text)
    → Moves Keeps (
        modify {E = OauthError} (λ db. record db {
          auth_codes = update (of_code hash) (consume clock.db_now) db.auth_codes;
        }))
unfolding is_revoked is_consumed
consume-Keeps clock hash = record {
  along = λ db. record {
    revoked = λ i h. h;
    consumed = λ j h. ground (
      arith,
      find-update (of_code j) (of_code hash) (consume clock.db_now) db.auth_codes (λ c. refl),
    );
  };
}

tokens-Keeps :
    (p : RefreshToken → Bool) (f : RefreshToken → RefreshToken)
    → Moves Keeps (
        modify {E = OauthError} (λ db. record db { refresh_tokens = update p f db.refresh_tokens }))
unfolding is_revoked is_consumed
tokens-Keeps p f = record { along = λ db. record { revoked = λ i h. h; consumed = λ j h. h } }

ruleset keeps_rules = (
  moves_rules, Keeps-preorder, revoke_grant-Keeps, load_grant-Keeps, new_refresh_token-Keeps,
  consume-Keeps, tokens-Keeps,
)

module _ (crates : Primitives) (issuer : Text) (clock : Clock) (draw : Draw) where
  issue_for_code-Keeps :
      (client : Client) (form : TokenForm) (verifier : Text) (row : AuthCode) (grant : Grant)
      → Moves Keeps (issue_for_code crates issuer clock draw client form verifier row grant)
  unfolding issue_for_code
  issue_for_code-Keeps client form verifier row grant = search keeps_rules depth 12

  exchange_row-Keeps :
      (client : Client) (form : TokenForm) (verifier : Text) (row : AuthCode)
      → Moves Keeps (exchange_row crates issuer clock draw client form verifier row)
  unfolding exchange_row
  exchange_row-Keeps client form verifier row = search (keeps_rules, issue_for_code-Keeps) depth 9

  exchange_code-Keeps :
      (client : Client) (form : TokenForm)
      → Moves Keeps (exchange_code crates issuer clock draw client form)
  unfolding exchange_code
  exchange_code-Keeps client form = search (keeps_rules, exchange_row-Keeps) depth 9

  slide_token-Keeps :
      (token : Text) (grant : Grant) (row : RefreshToken)
      → Moves Keeps (slide_token crates issuer clock token draw grant row)
  unfolding slide_token
  slide_token-Keeps token grant row = search keeps_rules depth 9

  rotate_token-Keeps :
      (client : Client) (grant : Grant) (row : RefreshToken)
      → Moves Keeps (rotate_token crates issuer clock draw client grant row)
  unfolding rotate_token
  rotate_token-Keeps client grant row = search keeps_rules depth 9

  refresh_row-Keeps :
      (client : Client) (token : Text) (row : RefreshToken)
      → Moves Keeps (refresh_row crates issuer clock draw client token row)
  unfolding refresh_row
  refresh_row-Keeps client token row =
      search (keeps_rules, slide_token-Keeps, rotate_token-Keeps) depth 9

  refresh-Keeps :
      (client : Client) (form : TokenForm)
      → Moves Keeps (refresh crates issuer clock draw client form)
  unfolding refresh
  refresh-Keeps client form = search (keeps_rules, refresh_row-Keeps) depth 9

  revoke_found-Keeps : (found : Option RefreshToken) → Moves Keeps (revoke_found clock draw found)
  unfolding revoke_found
  revoke_found-Keeps none = search keeps_rules
  revoke_found-Keeps (some row) = search keeps_rules

  revoke-Keeps : (token : Text) → Moves Keeps (revoke crates clock draw token)
  unfolding revoke
  revoke-Keeps token = search (keeps_rules, revoke_found-Keeps) depth 9

  presented-Keeps :
      (basic : Option (Text × Text)) (form : TokenForm) → Moves Keeps (presented basic form)
  unfolding presented
  presented-Keeps none form = search keeps_rules
  presented-Keeps (some (client_id, secret)) form = search keeps_rules

  authenticate_client-Keeps :
      (basic : Option (Text × Text)) (form : TokenForm)
      → Moves Keeps (authenticate_client crates basic form)
  unfolding authenticate_client
  authenticate_client-Keeps basic form = search (keeps_rules, presented-Keeps) depth 9

  grant_tokens-Keeps :
      (form : TokenForm) (client : Client)
      → Moves Keeps (grant_tokens crates issuer clock draw form client)
  unfolding grant_tokens
  grant_tokens-Keeps form client = search (keeps_rules, exchange_code-Keeps, refresh-Keeps)

  token-Keeps :
      (basic : Option (Text × Text)) (form : TokenForm)
      → Moves Keeps (token crates issuer clock draw basic form)
  unfolding token
  token-Keeps basic form = search (keeps_rules, authenticate_client-Keeps, grant_tokens-Keeps)

  handle-Keeps :
      (request : Request) (db : Db) → Keeps db (handle crates issuer clock draw request db)
  unfolding handle
  handle-Keeps (asks_token basic form) db = (token-Keeps basic form).along db
  handle-Keeps (revokes token) db = (revoke-Keeps token).along db

-- Whatever requests arrive, what was revoked or consumed before them is so after them.
pub run-Keeps :
    (crates : Primitives) (issuer : Text) (arrivals : List Arrival) (db : Db)
    → Keeps db (run crates issuer db arrivals)
unfolding run
run-Keeps crates issuer [] db = Keeps-preorder.same db
run-Keeps crates issuer (a ∷ rest) db =
    let after : Db = handle crates issuer a.clock a.draw a.request db in
    Keeps-preorder.chain db after (run crates issuer after rest)
      (handle-Keeps crates issuer a.clock a.draw a.request db) (run-Keeps crates issuer rest after)
