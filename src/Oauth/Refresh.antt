-- ===== src/Oauth/Refresh.antt =====
-- oauth.rs: exchanging a refresh token (`refresh`).
pub mod Outcome
mod Tests
use drone_dispatch.Clock.{Clock, days, rounded_seconds}
use drone_dispatch.Common.{
  ℕ, ◌+◌, Bool, not, ◌||◌, some, leb, if◌then◌else◌, is_some, is_some_and, or_else,
}
use drone_dispatch.Common.Exec.{
  Result, ok, err, pure, ok_or, gets, modify, reject_if, transaction, ◌>>=◌, ◌>>◌,
}
use drone_dispatch.Common.Int.{ltb_ℤ}
use drone_dispatch.Common.Table.{find, update}
use drone_dispatch.Crypto.{Primitives, hash_token}
use drone_dispatch.Db.{Grant, RefreshToken}
use drone_dispatch.Oauth.{
  OauthError, invalid_grant, invalid_request, TokenForm, Tokens, Draw, Action,
  confidential_refresh_days, reuse_window_secs, load_grant, revoke_grant, new_refresh_token,
  token_response,
}
use drone_dispatch.Registry.{Client}
use drone_dispatch.Text.{Text, same}

abbrev pub of_token : Text → RefreshToken → Bool
of_token hash t = same t.token_hash hash

abbrev pub slide : ℕ → RefreshToken → RefreshToken
slide now t = record t { expires_at = now + days confidential_refresh_days }

-- `COALESCE(rotated_at, now())`
abbrev pub rotate : ℕ → RefreshToken → RefreshToken
rotate now t = record t { rotated_at = or_else t.rotated_at (some now) }

-- `rotated_secs_ago.is_some_and(|secs| secs > REUSE_WINDOW_SECS)`
unfoldable pub is_reused : Clock → RefreshToken → Bool
is_reused clock row =
    is_some_and row.rotated_at (λ at. ltb_ℤ reuse_window_secs (rounded_seconds clock.db_now at))

module _ (crates : Primitives) (issuer : Text) where
  -- A confidential client keeps its token, and its expiry moves.
  unfoldable pub slide_token :
      Clock → Text → Draw → Grant → RefreshToken → Action (Result OauthError Tokens)
  unfolding token_response
  slide_token clock token draw grant row = do
    modify (λ db. record db {
      refresh_tokens = update (of_token row.token_hash) (slide clock.db_now) db.refresh_tokens;
    })
    pure (ok (token_response issuer clock draw.jti grant token))

  -- A public client's token is rotated; a late second use of it revokes the grant.
  unfoldable pub rotate_token :
      Clock → Draw → Client → Grant → RefreshToken → Action (Result OauthError Tokens)
  unfolding revoke_grant new_refresh_token token_response is_reused
  rotate_token clock draw client grant row =
      if is_reused clock row
      then (do
        revoke_grant clock draw.event_id grant
        pure (err (invalid_grant "Refresh token was already used")))
      else (do
        modify (λ db. record db {
          refresh_tokens = update (of_token row.token_hash) (rotate clock.db_now) db.refresh_tokens;
        })
        refresh_token ← new_refresh_token crates clock draw.token grant.id client
        pure (ok (token_response issuer clock draw.jti grant refresh_token)))

  -- The transaction of `refresh`, from the row that `SELECT … FOR UPDATE` found.
  unfoldable pub refresh_row :
      Clock → Draw → Client → Text → RefreshToken → Action (Result OauthError Tokens)
  unfolding load_grant slide_token rotate_token
  refresh_row clock draw client token row = do
    grant ← load_grant row.grant_id
    reject_if
        (leb row.expires_at clock.db_now
          || is_some row.revoked_at
          || is_some grant.revoked_at
          || not (same grant.client_id client.client_id))
        (invalid_grant "Refresh token is invalid or expired")
    if is_some client.secret_hash
        then slide_token clock token draw grant row
        else rotate_token clock draw client grant row

  unfoldable pub refresh : Clock → Draw → Client → TokenForm → Action Tokens
  unfolding refresh_row
  refresh clock draw client form = do
    token ← ok_or form.refresh_token (invalid_request "refresh_token is required")
    transaction (do
      found ← gets (λ db. find (of_token (hash_token crates token)) db.refresh_tokens)
      row ← ok_or found (invalid_grant "Unknown refresh token")
      refresh_row clock draw client token row)
