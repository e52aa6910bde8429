-- ===== src/Oauth/Exchange.antt =====
-- oauth.rs: exchanging an authorization code (`exchange_code`).
pub mod Issue
pub mod Outcome
pub mod Renewal
mod Tests
use drone_dispatch.Clock.{Clock, seconds, days, rounded_seconds}
use drone_dispatch.Common.{
  ℕ, ◌+◌, ◌/◌, ◌≡◌, Bool, true, false, not, ◌&&◌, ◌||◌, Option, none, some, List, [], ◌∷◌, String,
  ltb, leb, ◌==◌, if◌then◌else◌, is_some, is_some_and, or_else,
}
use drone_dispatch.Common.Exec.{
  Result, ok, err, Exec, pure, fail, lift, ok_or, gets, modify, reject_if, transaction, ◌>>=◌, ◌>>◌,
}
use drone_dispatch.Common.Int.{ℤ, pos, ltb_ℤ}
use drone_dispatch.Common.Table.{find, update, insert, at}
use drone_dispatch.Crypto.{Primitives, hash_token, pkce_s256, hashes_match}
use drone_dispatch.Db.{Db, Grant, AuthCode, RefreshToken, GrantRevoked, OutboxRow}
use drone_dispatch.Oauth.{
  OauthError, invalid_grant, invalid_request, invalid_client, server_error, TokenForm, Claims,
  Tokens, Draw, Action, confidential_refresh_days, reuse_window_secs, load_grant, revoke_grant,
  new_refresh_token, token_response,
}
use drone_dispatch.Registry.{Client, find_client}
use drone_dispatch.Text.{Text, text, same}
use drone_dispatch.Text.Keyed.{by}

abbrev pub of_code : Text → AuthCode → Bool
of_code hash c = same c.code_hash hash

abbrev pub consume : ℕ → AuthCode → AuthCode
consume now c = record c { consumed_at = some now }

-- `form.redirect_uri.as_deref() != Some(uri)`, negated
abbrev pub is_redirect : Option Text → Text → Bool
is_redirect given uri = is_some_and given (λ u. same u uri)

module _ (crates : Primitives) (issuer : Text) where
  -- What follows the test for a consumed code.
  unfoldable pub issue_for_code :
      Clock
      → Draw
      → Client
      → TokenForm
      → Text
      → AuthCode
      → Grant
      → Action (Result OauthError Tokens)
  unfolding new_refresh_token token_response
  issue_for_code clock draw client form verifier row grant = do
    reject_if
        (leb row.expires_at clock.db_now
          || is_some grant.revoked_at
          || not (same grant.client_id client.client_id))
        (invalid_grant "Authorization code is invalid or expired")
    reject_if (not (is_redirect form.redirect_uri row.redirect_uri))
        (invalid_grant "redirect_uri doesn't match the authorization request")
    reject_if (not (hashes_match (pkce_s256 crates verifier) row.code_challenge))
        (invalid_grant "PKCE verification failed")
    modify (λ db. record db {
      auth_codes = update (of_code row.code_hash) (consume clock.db_now) db.auth_codes;
    })
    refresh_token ← new_refresh_token crates clock draw.token grant.id client
    pure (ok (token_response issuer clock draw.jti grant refresh_token))

  -- The transaction of `exchange_code`, from the row that `SELECT … FOR UPDATE` found.
  unfoldable pub exchange_row :
      Clock → Draw → Client → TokenForm → Text → AuthCode → Action (Result OauthError Tokens)
  unfolding load_grant revoke_grant issue_for_code
  exchange_row clock draw client form verifier row = do
    grant ← load_grant row.grant_id
    if is_some row.consumed_at
        then (do
          revoke_grant clock draw.event_id grant
          pure (err (invalid_grant "Authorization code already used")))
        else issue_for_code clock draw client form verifier row grant

  unfoldable pub exchange_code : Clock → Draw → Client → TokenForm → Action Tokens
  unfolding exchange_row
  exchange_code clock draw client form = do
    code ← ok_or form.code (invalid_request "code is required")
    verifier ← ok_or form.code_verifier (invalid_request "code_verifier is required")
    transaction (do
      found ← gets (λ db. find (of_code (hash_token crates code)) db.auth_codes)
      row ← ok_or found (invalid_grant "Unknown authorization code")
      exchange_row clock draw client form verifier row)
