-- ===== src/Oauth/Tests.antt =====
-- Requests to the token endpoint on the small database.
use drone_dispatch.Clock.{seconds}
use drone_dispatch.Common.{◌≡◌, ◌≢◌, refl, none, some, arith, [], ◌∷◌}
use drone_dispatch.Common.Table.{count, find, insert}
use drone_dispatch.Crypto.{hash_token, pkce_s256, hashes_match}
use drone_dispatch.Db.{Db}
use drone_dispatch.Oauth.{Tokens, ok, load_grant, new_refresh_token, token_response}
use drone_dispatch.Oauth.Endpoint.{
  token, run, Arrival, asks_token, revokes, grant_tokens, authenticate_client, presented,
  has_secret,
}
use drone_dispatch.Oauth.Exchange.{exchange_code, exchange_row, issue_for_code}
use drone_dispatch.Oauth.Finality.{revoked_grant_final, code_single_use}
use drone_dispatch.Oauth.Fixture.{plain, grant, fresh_db, clock, draw, draw_2, code_form, issuer}
use drone_dispatch.Oauth.History.{run-Inv}
use drone_dispatch.Oauth.Invariant.{Inv}
use drone_dispatch.Oauth.Revocation.{is_revoked}
use drone_dispatch.Registry.{find_client}
use drone_dispatch.Text.{text, bytes, same, byte_len}

abbrev second_grant_db : Db
second_grant_db = record fresh_db {
  grants = record grant { id = 2; revoked_at = some (seconds 5) } ∷ grant ∷ [];
}

abbrev answered : Tokens
answered = record {
  access_token = record {
    iss = issuer;
    sub = 7;
    aud = text "https://r";
    client_id = text "web";
    scope = text "read";
    iat = 100;
    exp = 3700;
    jti = 51;
    gid = 1;
    acr = text "0";
    amr = text "pwd" ∷ [];
    auth_time = 90;
  };
  expires_in = 3600;
  refresh_token = text "n";
  scope = text "read";
}

abbrev code_request : Arrival
code_request = record { clock = clock; draw = draw; request = asks_token none code_form }

abbrev revocation_request : Arrival
revocation_request = record { clock = clock; draw = draw_2; request = revokes (text "t") }

abbrev after_code : Db
after_code = (token plain issuer clock draw none code_form fresh_db).1

abbrev after_second : Db
after_second = (token plain issuer clock draw none code_form second_grant_db).1

code_is_answered : token plain issuer clock draw none code_form fresh_db ≡ (ok answered, after_code)
unfolding token grant_tokens authenticate_client presented has_secret find_client exchange_code
    exchange_row issue_for_code load_grant new_refresh_token token_response hash_token pkce_s256
    hashes_match bytes find insert same byte_len
code_is_answered = refl

second_is_answered :
    token plain issuer clock draw none code_form second_grant_db ≡ (ok answered, after_second)
unfolding token grant_tokens authenticate_client presented has_secret find_client exchange_code
    exchange_row issue_for_code load_grant new_refresh_token token_response hash_token pkce_s256
    hashes_match bytes find insert same byte_len
second_is_answered = refl

revoked_grant_final_example : answered.access_token.gid ≢ 2
unfolding run
revoked_grant_final_example =
    revoked_grant_final plain issuer clock draw none code_form [] 2 second_grant_db after_second
      answered (unfold is_revoked find in refl) second_is_answered

code_single_use_example :
    token plain issuer clock draw_2 none code_form
      (run plain issuer after_code (revocation_request ∷ []))
    ≢ (ok answered, after_code)
code_single_use_example =
    code_single_use plain issuer clock clock draw draw_2 none none code_form code_form (text "c")
      (revocation_request ∷ []) fresh_db after_code after_code answered answered refl refl refl refl
      code_is_answered

fresh_db-Inv : Inv fresh_db
unfolding is_revoked count find
fresh_db-Inv = record {
  unique = λ gid. ground arith;
  dead = λ gid r. ground arith;
  events = λ gid. ground arith;
}

run-Inv_example : Inv (run plain issuer fresh_db (code_request ∷ revocation_request ∷ []))
run-Inv_example =
    run-Inv plain issuer (code_request ∷ revocation_request ∷ []) fresh_db fresh_db-Inv
