-- ===== src/Oauth/Refresh/Tests.antt =====
-- Refresh tokens at the small database.
use drone_dispatch.Clock.{seconds, rounded_seconds}
use drone_dispatch.Common.{◌≡◌, refl, true, false, some, arith, [], ◌∷◌, inl}
use drone_dispatch.Common.Table.{find}
use drone_dispatch.Crypto.{hash_token}
use drone_dispatch.Db.{Grant, Db, RefreshToken}
use drone_dispatch.Oauth.{invalid_grant, ok, TokenForm, Tokens}
use drone_dispatch.Oauth.Fixture.{
  plain, web_client, server_client, grant, token_1, fresh_db, clock, draw, refresh_form, issuer,
}
use drone_dispatch.Oauth.Refresh.{refresh, is_reused, err, of_token}
use drone_dispatch.Oauth.Refresh.Outcome.{Usable, late_reuse_revokes, refresh-rotates}
use drone_dispatch.Oauth.Revocation.{is_revoked}
use drone_dispatch.Text.{same, bytes, text}

token-Usable : Usable plain clock web_client refresh_form fresh_db (text "t") token_1 grant
unfolding hash_token bytes find same
token-Usable = record {
  has_token = refl;
  has_row = refl;
  has_grant = refl;
  unexpired = omega arith;
  live = refl;
  unrevoked = refl;
  own_client = refl;
}

abbrev next_form : TokenForm
next_form = record refresh_form { refresh_token = some (text "n") }

refresh-rotates_example :
    (tokens : Tokens) × (db' : Db) × (new : RefreshToken) × (refresh plain issuer clock draw
        web_client refresh_form fresh_db
      ≡ (ok tokens, db'))
    × (tokens.refresh_token ≡ text "n")
    × (tokens.access_token.gid ≡ grant.id)
    × (tokens.access_token.sub ≡ grant.user_id)
    × (tokens.access_token.scope ≡ grant.scope)
    × (find (of_token (hash_token plain (text "t"))) db'.refresh_tokens
        ≡ some (record token_1 { rotated_at = some (seconds 100) }))
    × Usable plain clock web_client next_form db' (text "n") new grant
    × (find (of_token []) db'.refresh_tokens ≡ find (of_token []) fresh_db.refresh_tokens)
unfolding hash_token bytes find same
refresh-rotates_example =
    refresh-rotates plain issuer clock draw web_client refresh_form fresh_db (text "t") token_1
      grant clock next_form [] token-Usable refl (inl refl) refl refl (omega arith) (λ e. cc)
      (λ e. cc)

abbrev server_grant : Grant
server_grant = record grant { client_id = text "srv" }

abbrev server_db : Db
server_db = record fresh_db { grants = server_grant ∷ [] }

server-Usable :
    Usable plain clock server_client refresh_form server_db (text "t") token_1 server_grant
unfolding hash_token bytes find same
server-Usable = record {
  has_token = refl;
  has_row = refl;
  has_grant = refl;
  unexpired = omega arith;
  live = refl;
  unrevoked = refl;
  own_client = refl;
}

abbrev old_token : RefreshToken
old_token = record token_1 { rotated_at = some (seconds 39) }

abbrev old_db : Db
old_db = record fresh_db { refresh_tokens = old_token ∷ [] }

old-Usable : Usable plain clock web_client refresh_form old_db (text "t") old_token grant
unfolding hash_token bytes find same
old-Usable = record {
  has_token = refl;
  has_row = refl;
  has_grant = refl;
  unexpired = omega arith;
  live = refl;
  unrevoked = refl;
  own_client = refl;
}

late_reuse_revokes_example :
    ((refresh plain issuer clock draw web_client refresh_form old_db).0
      ≡ err (invalid_grant "Refresh token was already used"))
    × (is_revoked (refresh plain issuer clock draw web_client refresh_form old_db).1 1 ≡ true)
late_reuse_revokes_example =
    late_reuse_revokes plain issuer clock draw web_client refresh_form old_db (text "t") old_token
      grant (seconds 39) old-Usable refl refl (omega arith) (unfold find in refl)

-- 60.4 seconds after the first exchange, the token is still accepted.
within_window : is_reused (record clock { db_now = 99400000000 }) old_token ≡ false
unfolding is_reused rounded_seconds
within_window = refl
