-- ===== src/Flow.antt =====
-- services/auth-service/src/flow.rs: parked authorization requests.
pub mod Fixture
mod Tests
pub mod Delivery
pub mod Issued
pub mod Handlers
pub mod Decision
use drone_dispatch.Api.{ApiError, not_found, Handler, change_db, internal}
use drone_dispatch.Clock.{Clock, seconds}
use drone_dispatch.Common.{
  none, some, true, false, Bool, if◌then◌else◌, ℕ, Option, List, ◌||◌, not, unwrap_or, [], ◌++◌,
  ◌&&◌, ◌∷◌, ◌+◌, leb,
}
use drone_dispatch.Common.Exec.{◌>>=◌, ◌>>◌, gets, ok_or, pure, reject_if}
use drone_dispatch.Common.Table.{find, insert}
use drone_dispatch.Crypto.{Primitives, hash_token}
use drone_dispatch.Db.{ParkedRequest, Db, AuthRequest}
use drone_dispatch.Registry.{Resource, find_resource, Client, upsert, find_client}
use drone_dispatch.Registry.Policy.{MfaPolicy, is_always}
use drone_dispatch.Session.{
  Session, SessionView, any_factor, view, has_second_factor, has_fresh_second_factor,
  fresh_mfa_secs,
}
use drone_dispatch.Text.{Text, text}
use drone_dispatch.Text.Keyed.{by}

-- What the crate `url` gives: `with_query` parses a URL and adds pairs to its query, and is `none` where
-- it does not parse; `host` gives the host, if there is one, and the scheme.
pub record Urls : Type 0 where
  pub with_query : Text → List (Text × Text) → Option Text
  pub host : Text → Option (Option Text × Text)

pub data Next : Type 0 where
  sign_in mfa mfa_enrollment consent complete : Next

pub record Situation : Type 0 where
  pub signed_in : Bool
  pub has_factors : Bool
  pub session_has_second_factor : Bool
  pub second_factor_fresh : Bool
  pub mfa_policy : MfaPolicy
  pub step_up : Bool
  pub first_party : Bool

-- `let needs_mfa = s.step_up || s.mfa_policy == MfaPolicy::Always`
abbrev pub needs_mfa : Situation → Bool
needs_mfa s = s.step_up || is_always s.mfa_policy

unfoldable pub decide : Situation → Next
decide s =
    if not s.signed_in
    then sign_in
    else if s.has_factors && not s.session_has_second_factor
    then mfa
    else if needs_mfa s && not s.has_factors
    then mfa_enrollment
    else if needs_mfa s
        && not (s.session_has_second_factor && (s.second_factor_fresh || not s.step_up))
    then mfa
    else if not s.first_party
    then consent
    else complete

abbrev pub code_ttl_secs : ℕ
code_ttl_secs = 60

abbrev pub expired_link : ApiError
expired_link = not_found "This sign-in link has expired. Start again from the app."

-- The pairs of a redirect back to the client, its `state` last.
abbrev pub with_state : Option Text → List (Text × Text) → List (Text × Text)
with_state none params = params
with_state (some client_state) params = params ++ (text "state", client_state) ∷ []

module _ (urls : Urls) where
  unfoldable pub redirect_with : Text → List (Text × Text) → Text
  redirect_with redirect_uri params = unwrap_or (urls.with_query redirect_uri params) redirect_uri

  abbrev host_or_scheme : Option (Option Text × Text) → Text
  host_or_scheme none = []
  host_or_scheme (some (none, scheme)) = scheme ++ text "://"
  host_or_scheme (some (some host, scheme)) = host

  unfoldable pub redirect_host : Text → Text
  redirect_host redirect_uri = host_or_scheme (urls.host redirect_uri)

module _ (crates : Primitives) where
  abbrev pub request_row : Clock → Text → ParkedRequest → AuthRequest
  request_row clock request_id request = record {
    id_hash = hash_token crates request_id;
    params = request;
    expires_at = clock.db_now + seconds 600;
  }

  -- The insertion is refused where the drawn id's hash is taken.
  unfoldable pub park : Clock → Text → ParkedRequest → Handler Text
  park clock request_id request = do
    change_db
        (λ db.
          elim (insert (by (λ r. r.id_hash) (hash_token crates request_id))
            (request_row clock request_id request) db.auth_requests) [
              | none ↦ none
              | some rows ↦ some (record db { auth_requests = rows })
            ])
        internal
    pure request_id

  unfoldable pub load : Clock → Text → Handler (ParkedRequest × Client)
  load clock request_id = do
    found ← gets (λ w. find (by (λ r. r.id_hash) (hash_token crates request_id)) w.db.auth_requests)
    row ← ok_or found expired_link
    reject_if (leb row.expires_at clock.db_now) expired_link
    known ← gets (λ w. find_client w.db row.params.client_id)
    client ← ok_or known expired_link
    pure (row.params, client)

-- `find_resource(..).map_or(MfaPolicy::None, |r| r.mfa)`
abbrev pub policy_of : List Resource → Text → MfaPolicy
policy_of resources uri = elim (find_resource resources uri) [
  | none ↦ MfaPolicy.none
  | some r ↦ r.mfa
]

abbrev pub situation :
    List Resource → Clock → ParkedRequest → Client → Session → SessionView → Situation
situation resources clock parked client session view = record {
  signed_in = true;
  has_factors = any_factor view.factors;
  session_has_second_factor = has_second_factor session;
  second_factor_fresh =
      has_fresh_second_factor clock (unwrap_or parked.max_age fresh_mfa_secs) session;
  mfa_policy = policy_of resources parked.resource;
  step_up = parked.step_up;
  first_party = client.first_party;
}

unfoldable pub evaluate :
    List Resource → Db → Clock → ParkedRequest → Client → Option Session → Next × Option SessionView
evaluate resources db clock parked client none = (sign_in, none)
evaluate resources db clock parked client (some session) =
    let v = view db session in (decide (situation resources clock parked client session v), some v)
