-- ===== src/Oauth/Authorize/Safety.antt =====
-- Where `/authorize` may send the browser, what it parks, and that the parked request can be loaded.
use drone_dispatch.Api.{World}
use drone_dispatch.Clock.{Clock, seconds}
use drone_dispatch.Common.{
  refl, ap, ◌≡◌, none, some, true, false, arith, and_then, ◌<◌, ◌+◌, Option-cases, any, not, inl,
  inr, Option, is_some_and, ap, unwrap_or, [], ◌⊎◌, ◌≢◌, ◌∷◌,
}
use drone_dispatch.Common.Exec.{ok}
use drone_dispatch.Common.Table.{insert, find, find-append}
use drone_dispatch.Config.{Config}
use drone_dispatch.Crypto.{Primitives, hash_token}
use drone_dispatch.Db.{ParkedRequest, AuthRequest}
use drone_dispatch.Flow.{park, load, Urls, request_row}
use drone_dispatch.Oauth.Authorize.{
  authorize_request, validate, pkce_ok, AuthorizeQuery, redirect, wanted_resource, known_client,
  requested_scopes, parked_request,
}
use drone_dispatch.Registry.{Client, find_client, Resource}
use drone_dispatch.Text.{
  Text, text, byte_len, contains, same, join, trim, is_empty, split_whitespace,
}
use drone_dispatch.Text.Equality.{same_self, same_iff}
use drone_dispatch.Text.Keyed.{by}

given_is :
    (given : Option Text) (expected : Text)
    → is_some_and given (λ t. same t expected) ≡ true
    → given ≡ some expected
given_is none expected e = ground arith
given_is (some t) expected e = ap some ((same_iff t expected).0 e)

-- Whatever the request, the browser is redirected only for a registered client and with a return address
-- that this client has registered.
pub authorize_request-redirect :
    (config : Config) (crates : Primitives) (urls : Urls) (clock : Clock) (request_id : Text)
    (q : AuthorizeQuery) (w w' : World) (url : Text)
    → authorize_request config crates urls clock request_id q w ≡ (redirect url, w')
    → (client : Client) × (uri : Text) × (and_then q.client_id (find_client w.db) ≡ some client)
      × (q.redirect_uri ≡ some uri)
      × (contains client.redirect_uris uri ≡ true)
unfolding authorize_request
authorize_request-redirect config crates urls clock request_id q w w' url e =
    elim (Option-cases (known_client config crates urls q w)) [
      | inl missing ↦ ground (arith, missing)
      | inr (client, known) ↦ elim (Option-cases q.redirect_uri) [
        | inl missing ↦ ground (arith, known, missing)
        | inr (uri, given) ↦ (client, uri, known, given, ground (arith, known, given))
      ]
    ]

challenge_given :
    (given : Option Text) (parked : Text)
    → parked ≡ unwrap_or given []
    → byte_len parked ≡ 43
    → given ≡ some parked
unfolding byte_len drone_dispatch.Text.bytes
challenge_given none parked e long = absurd (ground (arith, ap byte_len e))
challenge_given (some t) parked e long = ground (arith, e)

-- The scopes that are parked: those asked for, or all that the resource offers.
abbrev pub ScopesAs : Option Text → Resource → Text → Type 0
ScopesAs none resource scope = scope ≡ join (text " ") resource.scopes
ScopesAs (some asked) resource scope =
    ((trim asked ≡ []) × (scope ≡ join (text " ") resource.scopes))
    ⊎ ((trim asked ≢ []) × (scope ≡ join (text " ") (split_whitespace asked)))

empty_cases : (t : Text) → ((t ≡ []) × (is_empty t ≡ true)) ⊎ ((t ≢ []) × (is_empty t ≡ false))
empty_cases [] = inl (refl, refl)
empty_cases (c ∷ t) = inr (λ e. cc, refl)

requested_scopes-ScopesAs :
    (asked : Option Text) (resource : Resource)
    → ScopesAs asked resource (join (text " ") (requested_scopes asked resource))
unfolding requested_scopes
requested_scopes-ScopesAs none resource = refl
requested_scopes-ScopesAs (some asked) resource = elim (empty_cases (trim asked)) [
  | inl (blank, e) ↦ inl (blank, ground (arith, e))
  | inr (filled, e) ↦ inr (filled, ground (arith, e))
]

-- A request is parked only for the code flow with an S256 challenge of 43 bytes, for a resource of the
-- service, with scopes that this resource offers, and then as it was asked: for that client, return address
-- and resource, with the challenge and the state of the request, and with the scopes that it asks for, or
-- all that the resource offers where it asks for none.
pub validate-ok :
    (config : Config) (client : Client) (redirect_uri : Text) (q : AuthorizeQuery)
    (parked : ParkedRequest)
    → validate config client redirect_uri q ≡ ok parked
    → (q.response_type ≡ some (text "code"))
      × (q.code_challenge_method ≡ some (text "S256"))
      × (byte_len parked.code_challenge ≡ 43)
      × ((resource : Resource) × (wanted_resource config client q ≡ some resource)
          × (any (λ s. not (contains resource.scopes s)) (requested_scopes q.scope resource)
              ≡ false)
          × (parked ≡ parked_request config client redirect_uri q resource)
          × (parked.client_id ≡ client.client_id)
          × (parked.redirect_uri ≡ redirect_uri)
          × (parked.resource ≡ resource.uri)
          × (parked.state ≡ q.state)
          × (q.code_challenge ≡ some parked.code_challenge)
          × ScopesAs q.scope resource parked.scope)
unfolding validate pkce_ok
validate-ok config client redirect_uri q parked e =
    elim (Option-cases (wanted_resource config client q)) [
      | inl missing ↦ ground (arith, missing)
      | inr (resource, wanted) ↦ (
        given_is q.response_type (text "code") (ground (arith, wanted)),
        given_is q.code_challenge_method (text "S256") (ground (arith, wanted)),
        ground (arith, wanted),
        (
          resource,
          wanted,
          ground (arith, wanted),
          ground (arith, wanted),
          ground (arith, wanted),
          ground (arith, wanted),
          ground (arith, wanted),
          ground (arith, wanted),
          challenge_given q.code_challenge parked.code_challenge (ground (arith, wanted))
              (ground (arith, wanted)),
          ground (arith, wanted, requested_scopes-ScopesAs q.scope resource),
        ),
      )
    ]

-- A request that was parked is loaded with its client under its id for ten minutes.
pub park-load :
    (crates : Primitives) (clock clock' : Clock) (request_id id : Text) (parked : ParkedRequest)
    (client : Client) (w w' : World)
    → park crates clock request_id parked w ≡ (ok id, w')
    → find_client w.db parked.client_id ≡ some client
    → clock'.db_now < clock.db_now + seconds 600
    → load crates clock' id w' ≡ (ok (parked, client), w')
unfolding park load insert find_client
park-load crates clock clock' request_id id parked client w w' e known soon =
    elim (Option-cases (
      find (by (λ (r : AuthRequest). r.id_hash) (hash_token crates request_id))
        w.db.auth_requests)) [
          | inr (r, taken) ↦ ground (arith, taken)
          | inl fresh ↦ ground (
            arith,
            fresh,
            known,
            same_self (hash_token crates request_id),
            find-append (by (λ (r : AuthRequest). r.id_hash) (hash_token crates request_id))
                w.db.auth_requests (request_row crates clock request_id parked),
          )
        ]
