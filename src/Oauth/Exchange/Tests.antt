-- ===== src/Oauth/Exchange/Tests.antt =====
-- Codes at the small database.
use drone_dispatch.Clock.{seconds}
use drone_dispatch.Common.{◌≡◌, refl, true, none, some, arith, [], ◌∷◌}
use drone_dispatch.Common.Table.{find, update, insert}
use drone_dispatch.Crypto.{hash_token, pkce_s256, hashes_match}
use drone_dispatch.Db.{Db, AuthCode}
use drone_dispatch.Oauth.{
  token_row, invalid_grant, load_grant, token_response, new_refresh_token, ok, Draw, Tokens,
  TokenForm,
}
use drone_dispatch.Oauth.Exchange.{of_code, exchange_code, exchange_row, err, issue_for_code}
use drone_dispatch.Oauth.Exchange.Issue.{Guards}
use drone_dispatch.Oauth.Exchange.Outcome.{exchange_code-Guards, Presents, replayed_code_revokes}
use drone_dispatch.Oauth.Fixture.{
  plain, web_client, grant, code_row, token_1, fresh_db, clock, draw, code_form, refresh_form,
  issuer,
}
use drone_dispatch.Oauth.Exchange.Renewal.{exchange_code-refresh}
use drone_dispatch.Oauth.Refresh.{refresh}
use drone_dispatch.Oauth.Revocation.{is_revoked}
use drone_dispatch.Text.{text, bytes, same, byte_len}

code-Presents : Presents plain code_form fresh_db (text "v") code_row grant
unfolding hash_token bytes find same
code-Presents = record {
  code = text "c";
  has_code = refl;
  has_verifier = refl;
  has_row = refl;
  has_grant = refl;
}

code-Guards : Guards plain issuer clock draw web_client code_form (text "v") code_row grant
unfolding pkce_s256 hash_token bytes
code-Guards = record {
  unexpired = omega arith;
  unrevoked = refl;
  own_client = refl;
  own_redirect = refl;
  proof = refl;
}

abbrev issued_db : Db
issued_db = record fresh_db {
  auth_codes = record code_row { consumed_at = some (seconds 100) } ∷ [];
  refresh_tokens = token_1 ∷ token_row plain clock (text "n") 1 web_client ∷ [];
}

code_is_exchanged :
    exchange_code plain issuer clock draw web_client code_form fresh_db
    ≡ (ok (token_response issuer clock 51 grant (text "n")), issued_db)
unfolding exchange_code exchange_row issue_for_code load_grant new_refresh_token token_response
    hash_token pkce_s256 hashes_match bytes find insert same byte_len update
code_is_exchanged = refl

abbrev next_draw : Draw
next_draw = record draw { token = text "m" }

abbrev next_form : TokenForm
next_form = record refresh_form { refresh_token = some (text "n") }

exchange_code-refresh_example :
    (find (of_code code_row.code_hash) issued_db.auth_codes
      ≡ some (record code_row { consumed_at = some (seconds 100) }))
    × ((token_response issuer clock 51 grant (text "n")).access_token.sub ≡ grant.user_id)
    × ((token_response issuer clock 51 grant (text "n")).access_token.gid ≡ grant.id)
    × ((token_response issuer clock 51 grant (text "n")).access_token.scope ≡ grant.scope)
    × (tokens' : Tokens) × ((refresh plain issuer clock next_draw web_client next_form issued_db).0
        ≡ ok tokens')
    × (tokens'.access_token.sub ≡ grant.user_id)
    × (tokens'.access_token.gid ≡ grant.id)
    × (tokens'.access_token.scope ≡ grant.scope)
unfolding hash_token bytes find same token_response
exchange_code-refresh_example =
    exchange_code-refresh plain issuer clock draw web_client code_form fresh_db issued_db (text "v")
      code_row grant (token_response issuer clock 51 grant (text "n")) clock next_draw next_form
      code-Presents code_is_exchanged refl (omega arith) refl

exchange_code-Guards_example :
    (code_row.consumed_at ≡ none)
    × Guards plain issuer clock draw web_client code_form (text "v") code_row grant
exchange_code-Guards_example =
    exchange_code-Guards plain issuer clock draw web_client code_form fresh_db issued_db (text "v")
      code_row grant (token_response issuer clock 51 grant (text "n")) code-Presents
      code_is_exchanged

abbrev used_code : AuthCode
used_code = record code_row { consumed_at = some (seconds 95) }

abbrev used_db : Db
used_db = record fresh_db { auth_codes = used_code ∷ [] }

used_code-Presents : Presents plain code_form used_db (text "v") used_code grant
unfolding hash_token bytes find same
used_code-Presents = record {
  code = text "c";
  has_code = refl;
  has_verifier = refl;
  has_row = refl;
  has_grant = refl;
}

replayed_code_revokes_example :
    ((exchange_code plain issuer clock draw web_client code_form used_db).0
      ≡ err (invalid_grant "Authorization code already used"))
    × (is_revoked (exchange_code plain issuer clock draw web_client code_form used_db).1 1 ≡ true)
replayed_code_revokes_example =
    replayed_code_revokes plain issuer clock draw web_client code_form used_db (text "v") used_code
      grant (seconds 95) used_code-Presents refl (unfold find in refl)
