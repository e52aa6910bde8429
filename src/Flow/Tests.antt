-- ===== src/Flow/Tests.antt =====
-- A request of the small service, from `complete` to its tokens.
use drone_dispatch.Session
use drone_dispatch.Api.{World}
use drone_dispatch.Clock.{seconds}
use drone_dispatch.Common.{◌≡◌, none, some, true, false, refl, arith, [], ◌↔◌, ◌⊎◌, ◌∷◌, any}
use drone_dispatch.Common.Exec.{ok}
use drone_dispatch.Common.Table.{find, at}
use drone_dispatch.Crypto.{hash_token, pkce_s256}
use drone_dispatch.Flow.{
  load, consent, complete, Urls, Situation, expired_link, situation, decide, policy_of, park,
}
use drone_dispatch.Flow.Decision.{Ready}
use drone_dispatch.Flow.Delivery.{complete_request-exchange, complete_request-Ready}
use drone_dispatch.Flow.Fixture.{urls, config, parked}
use drone_dispatch.Flow.Handlers.{code_row, CodeDraw, complete_request, refusal, grant_row}
use drone_dispatch.Oauth.{token_response, Tokens}
use drone_dispatch.Oauth.Exchange.{exchange_code}
use drone_dispatch.Oauth.Fixture.{plain, clock, web_client, code_form, draw, issuer}
use drone_dispatch.Registry.{Resource, resources, find_client}
use drone_dispatch.Registry.Policy.{MfaPolicy}
use drone_dispatch.Session.{Jar, session_of, view, has_second_factor, acr}
use drone_dispatch.Session.Fixture.{signed_in_world, pwd_session}
use drone_dispatch.Text.{text, bytes, same, contains}
use drone_dispatch.Db.{Grant}

abbrev request_world : World
request_world = record signed_in_world {
  db = record signed_in_world.db {
    auth_requests = record { id_hash = text "q"; params = parked; expires_at = seconds 500 } ∷ [];
  };
}

abbrev code_draw : CodeDraw
code_draw = record { code = text "c"; grant_id = 3 }

abbrev cookie : Jar
cookie = some (text "s")

abbrev after_complete : World
after_complete =
    (complete_request plain urls config clock code_draw cookie (text "q") true request_world).1

request_is_loaded :
    load plain clock (text "q") request_world ≡ (ok (parked, web_client), request_world)
unfolding load hash_token bytes find same find_client contains
request_is_loaded = refl

session_is_loaded : Session.load plain request_world.db clock cookie ≡ some pwd_session
unfolding Session.load session_of hash_token bytes find same
session_is_loaded = refl

complete_is_ok :
    complete_request plain urls config clock code_draw cookie (text "q") true request_world
    ≡ (ok (text "https://w/cb"), after_complete)
unfolding complete_request load hash_token bytes find same find_client Session.load refusal
    drone_dispatch.Flow.evaluate decide view drone_dispatch.Common.Table.count
    drone_dispatch.Registry.find_resource resources contains
    drone_dispatch.Flow.Handlers.store_grant drone_dispatch.Common.Table.insert
    drone_dispatch.Flow.redirect_with
complete_is_ok = refl

complete_request-Ready_example :
    Ready (
      situation
        (resources config)
        clock
        parked
        web_client
        pwd_session
        (view request_world.db pwd_session))
    × ((false ≡ true) ⊎ (true ≡ true))
    × (grant : Grant) × (find (at (λ g. g.id) 3) after_complete.db.grants ≡ some grant)
    × (grant.user_id ≡ pwd_session.user_id)
    × (grant.client_id ≡ web_client.client_id)
    × (grant.resource ≡ parked.resource)
    × (grant.scope ≡ parked.scope)
    × ((grant.acr ≡ text "mfa") ↔ (any (λ m. same m (text "hwk")) pwd_session.amr ≡ true))
    × (policy_of (resources config) (text "https://u") ≡ MfaPolicy.always → grant.acr ≡ text "mfa")
complete_request-Ready_example =
    complete_request-Ready plain urls config clock code_draw cookie (text "q") true request_world
      after_complete (text "https://w/cb") parked web_client pwd_session request_is_loaded
      session_is_loaded complete_is_ok

complete_request-exchange_example :
    (tokens : Tokens) × ((exchange_code plain issuer clock draw web_client code_form
        after_complete.db).0
      ≡ ok tokens)
    × (tokens
        ≡ token_response issuer clock 51
            (grant_row code_draw parked web_client pwd_session)
            (text "n"))
    × (tokens.access_token.sub ≡ pwd_session.user_id)
    × (tokens.access_token.client_id ≡ web_client.client_id)
    × (tokens.access_token.aud ≡ parked.resource)
    × (tokens.access_token.scope ≡ parked.scope)
    × (tokens.access_token.gid ≡ 3)
    × (tokens.refresh_token ≡ text "n")
unfolding pkce_s256 hash_token bytes find
complete_request-exchange_example =
    complete_request-exchange plain urls config clock code_draw cookie (text "q") true request_world
      after_complete (text "https://w/cb") parked web_client pwd_session request_is_loaded
      session_is_loaded complete_is_ok issuer clock draw code_form (text "v") refl refl refl refl
      (omega arith) refl

abbrev new_situation : Situation
new_situation =
    situation (resources config) clock parked web_client pwd_session
      (view request_world.db pwd_session)
