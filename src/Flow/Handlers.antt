-- ===== src/Flow/Handlers.antt =====
-- flow.rs: the handlers `get_request`, `complete` and `deny`.
use drone_dispatch.Session
use drone_dispatch.Api.{ApiError, not_signed_in, Handler, conflict, modify_db, change_db, internal}
use drone_dispatch.Clock.{Clock, seconds}
use drone_dispatch.Common.{
  none, some, true, false, Option, Bool, ℕ, List, ◌+◌, ◌∷◌, [], is_some_and,
}
use drone_dispatch.Common.Exec.{pure, ◌>>=◌, ◌>>◌, fail, gets, ok_or}
use drone_dispatch.Common.Table.{delete, insert, at}
use drone_dispatch.Config.{Config}
use drone_dispatch.Crypto.{Primitives, hash_token}
use drone_dispatch.Db.{ParkedRequest, Db, Grant, AuthCode}
use drone_dispatch.Flow.{
  sign_in, load, mfa, mfa_enrollment, consent, complete, Next, Urls, with_state, evaluate,
  redirect_with, code_ttl_secs, redirect_host,
}
use drone_dispatch.Registry.{Client, resources, find_resource}
use drone_dispatch.Registry.Policy.{is_always}
use drone_dispatch.Session.{Session, SessionView, acr, Jar}
use drone_dispatch.Text.{Text, text, split_whitespace}
use drone_dispatch.Text.Keyed.{by}

-- What `get_request` answers.
pub record RequestView : Type 0 where
  pub request_id : Text
  pub client : Client
  pub resource : Text
  pub scopes : List Text
  pub redirect_host : Text
  pub step_up : Bool
  pub mfa_required : Bool
  pub next : Next
  pub session : Option SessionView

-- The `match` on what the request still needs.
unfoldable pub refusal : Next → Bool → Option ApiError
refusal sign_in consented = some not_signed_in
refusal mfa consented = some (conflict "Verify your second factor first" "MFA_REQUIRED")
refusal mfa_enrollment consented =
    some (conflict "Set up a second factor first" "MFA_ENROLLMENT_REQUIRED")
refusal consent false = some (conflict "Approve access for this app first" "CONSENT_REQUIRED")
refusal consent true = none
refusal complete consented = none

abbrev pub refuse : Option ApiError → Handler (Unit {0})
refuse none = pure tt
refuse (some e) = fail e

pub record CodeDraw : Type 0 where
  pub code : Text
  pub grant_id : ℕ

abbrev pub grant_row : CodeDraw → ParkedRequest → Client → Session → Grant
grant_row draw parked client session = record {
  id = draw.grant_id;
  user_id = session.user_id;
  client_id = client.client_id;
  resource = parked.resource;
  scope = parked.scope;
  acr = acr session;
  amr = session.amr;
  auth_time = session.auth_time;
  revoked_at = none;
}

module _ (crates : Primitives) where
  abbrev pub code_row : Clock → CodeDraw → ParkedRequest → Session → AuthCode
  code_row clock draw parked session = record {
    code_hash = hash_token crates draw.code;
    grant_id = draw.grant_id;
    redirect_uri = parked.redirect_uri;
    scope = parked.scope;
    resource = parked.resource;
    code_challenge = parked.code_challenge;
    acr = acr session;
    amr = session.amr;
    auth_time = session.auth_time;
    expires_at = clock.db_now + seconds code_ttl_secs;
    consumed_at = none;
  }

  abbrev pub drop_request : Text → Db → Db
  drop_request request_id db = record db {
    auth_requests = delete (by (λ r. r.id_hash) (hash_token crates request_id)) db.auth_requests;
  }

  -- The transaction of `complete`: a refused insertion rolls it back.
  unfoldable pub store_grant : Text → Grant → AuthCode → Db → Option Db
  store_grant request_id grant code db = elim (insert (at (λ g. g.id) grant.id) grant db.grants) [
    | none ↦ none
    | some grants ↦ elim (insert (by (λ c. c.code_hash) code.code_hash) code db.auth_codes) [
      | none ↦ none
      | some codes ↦
          some (drop_request request_id (record db { grants = grants; auth_codes = codes }))
    ]
  ]

  module _ (urls : Urls) (config : Config) where
    unfoldable pub get_request : Clock → Jar → Text → Handler RequestView
    get_request clock jar request_id = do
      (parked, client) ← load crates clock request_id
      db ← gets (λ w. w.db)
      pure (
          let (next, session_view) =
            evaluate (resources config) db clock parked client (Session.load crates db clock jar) in
          record {
            request_id = request_id;
            client = client;
            resource = parked.resource;
            scopes = split_whitespace parked.scope;
            redirect_host = redirect_host urls parked.redirect_uri;
            step_up = parked.step_up;
            mfa_required =
                is_some_and (find_resource (resources config) parked.resource)
                  (λ r. is_always r.mfa);
            next = next;
            session = session_view;
          })

    -- The pairs that `complete` sends back.
    abbrev pub code_params : Text → ParkedRequest → List (Text × Text)
    code_params code parked =
        with_state parked.state ((text "code", code) ∷ (text "iss", config.issuer) ∷ [])

    -- What `complete` does once the request and the session are loaded.
    unfoldable pub complete_loaded :
        Clock → CodeDraw → Text → Bool → ParkedRequest → Client → Session → Handler Text
    complete_loaded clock draw request_id consented parked client session = do
      next ← gets (λ w. (evaluate (resources config) w.db clock parked client (some session)).0)
      refuse (refusal next consented)
      change_db
          (store_grant request_id (grant_row draw parked client session)
            (code_row clock draw parked session))
          internal
      pure (redirect_with urls parked.redirect_uri (code_params draw.code parked))

    unfoldable pub complete_request : Clock → CodeDraw → Jar → Text → Bool → Handler Text
    unfolding complete_loaded
    complete_request clock draw jar request_id consented = do
      (parked, client) ← load crates clock request_id
      found ← gets (λ w. Session.load crates w.db clock jar)
      session ← ok_or found not_signed_in
      complete_loaded clock draw request_id consented parked client session

    unfoldable pub deny : Clock → Text → Handler Text
    deny clock request_id = do
      (parked, client) ← load crates clock request_id
      modify_db (drop_request request_id)
      pure (
          redirect_with urls parked.redirect_uri (
            with_state parked.state
              ((text "error", text "access_denied") ∷ (text "iss", config.issuer) ∷ [])))
