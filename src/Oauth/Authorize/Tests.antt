-- ===== src/Oauth/Authorize/Tests.antt =====
-- Requests to `/authorize` of the small service.
use drone_dispatch.Api.{World}
use drone_dispatch.Common.{◌≡◌, none, some, true, false, refl, arith, and_then, any, not}
use drone_dispatch.Common.Exec.{ok}
use drone_dispatch.Db.{ParkedRequest}
use drone_dispatch.Flow.{park}
use drone_dispatch.Flow.Fixture.{urls, config, parked}
use drone_dispatch.Oauth.Authorize.{
  AuthorizeQuery, authorize_request, validate, redirect, wanted_resource, requested_scopes,
  parked_request,
}
use drone_dispatch.Oauth.Authorize.Safety.{authorize_request-redirect, validate-ok, ScopesAs}
use drone_dispatch.Oauth.Fixture.{plain, clock, web_client}
use drone_dispatch.Registry.{Client, find_client, Resource}
use drone_dispatch.Session.Fixture.{world}
use drone_dispatch.Text.{Text, text, byte_len, contains}

abbrev challenge : Text
challenge = text "abcdefghijklmnopqrstuvwxyzABCDEFGHIJ0123456"

abbrev query : AuthorizeQuery
query = record {
  response_type = some (text "code");
  client_id = some (text "web");
  redirect_uri = some (text "https://w/cb");
  scope = none;
  state = none;
  code_challenge = some challenge;
  code_challenge_method = some (text "S256");
  resource = some (text "https://u");
  acr_values = none;
  max_age = none;
}

abbrev after_query : World
after_query = (authorize_request config plain urls clock (text "q") query world).1

query_redirects :
    authorize_request config plain urls clock (text "q") query world
    ≡ (redirect (text "https://ui/sign-in?request=q"), after_query)
unfolding authorize_request find_client drone_dispatch.Common.Table.find drone_dispatch.Text.same
    contains drone_dispatch.Oauth.Authorize.pkce_ok byte_len
    drone_dispatch.Oauth.Authorize.resource_uri drone_dispatch.Registry.find_resource
    drone_dispatch.Registry.resources requested_scopes park drone_dispatch.Common.Table.insert
query_redirects = refl

authorize_request-redirect_example :
    (client : Client) × (uri : Text) × (and_then query.client_id (find_client world.db)
      ≡ some client)
    × (query.redirect_uri ≡ some uri)
    × (contains client.redirect_uris uri ≡ true)
authorize_request-redirect_example =
    authorize_request-redirect config plain urls clock (text "q") query world after_query
      (text "https://ui/sign-in?request=q") query_redirects

abbrev asked : ParkedRequest
asked = record parked { scope = text "openid email"; code_challenge = challenge }

query_is_valid : validate config web_client (text "https://w/cb") query ≡ ok asked
unfolding validate drone_dispatch.Text.same drone_dispatch.Oauth.Authorize.pkce_ok byte_len
    drone_dispatch.Oauth.Authorize.resource_uri drone_dispatch.Registry.find_resource
    drone_dispatch.Common.Table.find drone_dispatch.Registry.resources requested_scopes contains
    drone_dispatch.Text.join
query_is_valid = refl

validate-ok_example :
    (query.response_type ≡ some (text "code"))
    × (query.code_challenge_method ≡ some (text "S256"))
    × (byte_len challenge ≡ 43)
    × ((resource : Resource) × (wanted_resource config web_client query ≡ some resource)
        × (any (λ s. not (contains resource.scopes s)) (requested_scopes query.scope resource)
            ≡ false)
        × (asked ≡ parked_request config web_client (text "https://w/cb") query resource)
        × (asked.client_id ≡ web_client.client_id)
        × (asked.redirect_uri ≡ text "https://w/cb")
        × (asked.resource ≡ resource.uri)
        × (asked.state ≡ query.state)
        × (query.code_challenge ≡ some challenge)
        × ScopesAs query.scope resource asked.scope)
validate-ok_example = validate-ok config web_client (text "https://w/cb") query asked query_is_valid

abbrev after_park : World
after_park = (park plain clock (text "q") parked world).1

is_parked : park plain clock (text "q") parked world ≡ (ok (text "q"), after_park)
unfolding park drone_dispatch.Common.Table.insert
is_parked = refl

client_is_known : find_client world.db (text "web") ≡ some web_client
unfolding find_client drone_dispatch.Common.Table.find drone_dispatch.Text.same contains
client_is_known = refl
