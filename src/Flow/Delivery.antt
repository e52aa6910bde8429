-- ===== src/Flow/Delivery.antt =====
-- From a completed request to tokens: the code that `complete` hands out at the token endpoint, the
-- single use of a request, and the second factor that a resource insists on.
use drone_dispatch.Session
use drone_dispatch.Api.{World}
use drone_dispatch.Clock.{Clock, seconds}
use drone_dispatch.Common.{
  ◌≡◌, none, some, true, refl, arith, Bool, Option-cases, inr, inl, ◌<◌, ◌+◌, sym, ◌⊎◌, ap, ◌∙◌,
  ◌↔◌, any, Bool-cases,
}
use drone_dispatch.Common.Exec.{ok, err}
use drone_dispatch.Common.Table.{insert, find, find-delete, at, find-append}
use drone_dispatch.Config.{Config}
use drone_dispatch.Crypto.{Primitives, hash_token, pkce_s256}
use drone_dispatch.Db.{Grant, AuthCode, Db, AuthRequest, ParkedRequest, RefreshToken}
use drone_dispatch.Flow.{load, Urls, expired_link, policy_of, situation}
use drone_dispatch.Flow.Decision.{refusal-none_iff, Ready}
use drone_dispatch.Flow.Handlers.{
  store_grant, CodeDraw, complete_request, grant_row, complete_loaded, code_row,
}
use drone_dispatch.Flow.Issued.{
  complete_request-Completed, complete_loaded-ok, complete_request-loaded,
}
use drone_dispatch.Oauth.{Draw, TokenForm, token_response, Tokens}
use drone_dispatch.Oauth.Exchange.{of_code, exchange_code}
use drone_dispatch.Oauth.Exchange.Outcome.{exchange_code-issues}
use drone_dispatch.Registry.{resources, Client}
use drone_dispatch.Registry.Policy.{MfaPolicy}
use drone_dispatch.Session.{Jar, acr, has_second_factor, view, Session}
use drone_dispatch.Text.{Text, text, same}
use drone_dispatch.Text.Equality.{same_self}
use drone_dispatch.Text.Keyed.{by}

acr_iff :
    (session : Session)
    → (acr session ≡ text "mfa") ↔ (any (λ m. same m (text "hwk")) session.amr ≡ true)
unfolding acr has_second_factor
acr_iff session = elim (Bool-cases (any (λ m. same m (text "hwk")) session.amr)) [
  | inl used ↦ (λ e. used, λ h. ground (arith, used))
  | inr unused ↦ (λ e. absurd (ground (arith, unused, e)), λ h. absurd (ground (arith, unused, h)))
]

module _ (crates : Primitives) where
  -- The rows of a committed `store_grant`.
  record Stored (request_id : Text) (grant : Grant) (code : AuthCode) (db db' : Db) : Type 0 where
    has_grant : find (at (λ g. g.id) grant.id) db'.grants ≡ some grant
    has_code : find (of_code code.code_hash) db'.auth_codes ≡ some code
    request_gone :
        find (by (λ r. r.id_hash) (hash_token crates request_id)) db'.auth_requests ≡ none
    same_tokens : db'.refresh_tokens ≡ db.refresh_tokens

  store_grant-Stored :
      (request_id : Text) (grant : Grant) (code : AuthCode) (db db' : Db)
      → store_grant crates request_id grant code db ≡ some db'
      → Stored request_id grant code db db'
  unfolding store_grant insert
  store_grant-Stored request_id grant code db db' e =
      let gone =
        find-delete (by (λ (r : AuthRequest). r.id_hash) (hash_token crates request_id))
          db.auth_requests in
      elim (Option-cases (find (at (λ (g : Grant). g.id) grant.id) db.grants)) [
        | inr (g, taken) ↦ ground (arith, taken)
        | inl new ↦ elim (Option-cases (find (of_code code.code_hash) db.auth_codes)) [
          | inr (c, taken) ↦ ground (arith, new, taken)
          | inl fresh ↦ record {
            has_grant = ground (
              arith,
              new,
              fresh,
              find-append (at (λ (g : Grant). g.id) grant.id) db.grants grant,
            );
            has_code = ground (
              arith,
              new,
              fresh,
              same_self code.code_hash,
              find-append (of_code code.code_hash) db.auth_codes code,
            );
            request_gone = ground (arith, new, fresh, gone);
            same_tokens = ground (arith, new, fresh);
          }
        ]
      ]

  module _ (urls : Urls) (config : Config) (clock : Clock) (draw : CodeDraw) (jar : Jar)
      (request_id : Text) (consented : Bool) (w w' : World) (url : Text) where
    abbrev Answers : Type 0
    Answers =
        complete_request crates urls config clock draw jar request_id consented w ≡ (ok url, w')

    -- After a successful `complete`, the request is gone: loading it again fails at any time.
    pub complete_request-load :
        (clock' : Clock) → Answers → (load crates clock' request_id w').0 ≡ err expired_link
    unfolding load
    complete_request-load clock' e =
        let done =
          complete_request-Completed crates urls config clock draw jar request_id consented w w' url
            e in
        let rows = store_grant-Stored request_id _ _ w.db w'.db done.stored in
        ground (arith, rows.request_gone)

  module _ (urls : Urls) (config : Config) (clock : Clock) (draw : CodeDraw) (jar : Jar)
      (request_id : Text) (consented : Bool) (w w' : World) (url : Text) (parked : ParkedRequest)
      (client : Client) (session : Session)
      (loaded : load crates clock request_id w ≡ (ok (parked, client), w))
      (signed_in : Session.load crates w.db clock jar ≡ some session)
      (answer : complete_request crates urls config clock draw jar request_id consented w
        ≡ (ok url, w')) where
    completed :
        complete_loaded crates urls config clock draw request_id consented parked client session w
        ≡ (ok url, w')
    completed =
        sym (
          complete_request-loaded crates urls config clock draw jar request_id consented w parked
            client session loaded signed_in)
        ∙ answer

    -- `complete` answers only if the user is ready, in the sense of `Ready`, and the app is first-party
    -- or the user approved. It stores a grant of the signed-in user to the client, for the resource and
    -- the scope of the request; the grant says `mfa` exactly where the methods of the session include the
    -- passkey, `hwk`, and it says so wherever the request's resource insists on a second factor.
    pub complete_request-Ready :
        Ready (situation (resources config) clock parked client session (view w.db session))
        × ((client.first_party ≡ true) ⊎ (consented ≡ true))
        × (grant : Grant) × (find (at (λ g. g.id) draw.grant_id) w'.db.grants ≡ some grant)
        × (grant.user_id ≡ session.user_id)
        × (grant.client_id ≡ client.client_id)
        × (grant.resource ≡ parked.resource)
        × (grant.scope ≡ parked.scope)
        × ((grant.acr ≡ text "mfa") ↔ (any (λ m. same m (text "hwk")) session.amr ≡ true))
        × (policy_of (resources config) parked.resource ≡ MfaPolicy.always → grant.acr ≡ text "mfa")
    unfolding acr has_second_factor
    complete_request-Ready =
        let s = situation (resources config) clock parked client session (view w.db session) in
        let (passed, stored, _) =
          complete_loaded-ok crates urls config clock draw request_id consented parked client
            session w w' url completed in
        let (ready, agreed) = (refusal-none_iff s consented).0 passed in
        let grant = grant_row draw parked client session in
        let rows =
          store_grant-Stored request_id grant (code_row crates clock draw parked session) w.db w'.db
            stored in
        (
          ready,
          agreed,
          grant,
          rows.has_grant,
          refl,
          refl,
          refl,
          refl,
          acr_iff session,
          λ insists.
              (acr_iff session).1
                (ready.factor_used (ready.factor_exists (ground (arith, insists)))),
        )

    -- The code that `complete` stored gets tokens for the signed-in user within a minute: from the
    -- client of the request, with its redirect URI and a verifier of its PKCE challenge, and a fresh
    -- refresh token. The access token names the session's user, the client, the resource and the scope of
    -- the request, and the grant of `complete`.
    pub complete_request-exchange :
        (issuer : Text) (clock' : Clock) (draw' : Draw) (form : TokenForm) (verifier : Text)
        → form.code ≡ some draw.code
        → form.code_verifier ≡ some verifier
        → form.redirect_uri ≡ some parked.redirect_uri
        → pkce_s256 crates verifier ≡ parked.code_challenge
        → clock'.db_now < clock.db_now + seconds 60
        → find (by (λ t. t.token_hash) (hash_token crates draw'.token)) w.db.refresh_tokens ≡ none
        → (tokens : Tokens) × ((exchange_code crates issuer clock' draw' client form w'.db).0
            ≡ ok tokens)
          × (tokens
              ≡ token_response issuer clock' draw'.jti
                  (grant_row draw parked client session)
                  draw'.token)
          × (tokens.access_token.sub ≡ session.user_id)
          × (tokens.access_token.client_id ≡ client.client_id)
          × (tokens.access_token.aud ≡ parked.resource)
          × (tokens.access_token.scope ≡ parked.scope)
          × (tokens.access_token.gid ≡ draw.grant_id)
          × (tokens.refresh_token ≡ draw'.token)
    unfolding token_response
    complete_request-exchange issuer clock' draw' form verifier has_code has_verifier has_redirect
          proof soon fresh =
        let (_, stored, _) =
          complete_loaded-ok crates urls config clock draw request_id consented parked client
            session w w' url completed in
        let grant = grant_row draw parked client session in
        let row = code_row crates clock draw parked session in
        let rows = store_grant-Stored request_id grant row w.db w'.db stored in
        (
          token_response issuer clock' draw'.jti grant draw'.token,
          ap (λ p. p.0)
              (exchange_code-issues crates issuer clock' draw' client form w'.db verifier row grant
                (record {
                  code = draw.code;
                  has_code = has_code;
                  has_verifier = has_verifier;
                  has_row = rows.has_code;
                  has_grant = rows.has_grant;
                })
                refl
                (record {
                  unexpired = soon;
                  unrevoked = refl;
                  own_client = refl;
                  own_redirect = has_redirect;
                  proof = proof;
                })
                (ap (find (by (λ (t : RefreshToken). t.token_hash) (hash_token crates draw'.token)))
                    rows.same_tokens
                  ∙ fresh)),
          refl,
          refl,
          refl,
          refl,
          refl,
          refl,
          refl,
        )
