-- ===== src/Oauth/Authorize.antt =====
-- oauth.rs: `/authorize` (`authorize_request`).
mod Tests
pub mod Safety
use drone_dispatch.Api.{World}
use drone_dispatch.Clock.{Clock}
use drone_dispatch.Common.{
  none, some, true, false, Option, String, ℕ, Bool, leb, unwrap_or, ◌&&◌, [], List, or_else,
  and_then, ◌||◌, is_some_and, if◌then◌else◌, ◌==◌, not, any, ◌∷◌, ◌++◌, all,
}
use drone_dispatch.Common.Exec.{Result, ok, err}
use drone_dispatch.Common.Int.{ℤ}
use drone_dispatch.Config.{Config}
use drone_dispatch.Crypto.{Primitives}
use drone_dispatch.Db.{ParkedRequest}
use drone_dispatch.Flow.{park, Next, Urls, redirect_with, with_state}
use drone_dispatch.Registry.{Resource, Client, find_resource, resources, find_client}
use drone_dispatch.Text.{
  Text, join, same, text, contains, byte_len, is_empty, trim, split_whitespace, bytes,
}

-- The query of `/authorize`. `max_age` is in seconds.
pub record AuthorizeQuery : Type 0 where
  pub response_type : Option Text
  pub client_id : Option Text
  pub redirect_uri : Option Text
  pub scope : Option Text
  pub state : Option Text
  pub code_challenge : Option Text
  pub code_challenge_method : Option Text
  pub resource : Option Text
  pub acr_values : Option Text
  pub max_age : Option ℤ

-- The reply: a page of its own, or a redirect to an address.
pub data Reply : Type 0 where
  error_page : String → Reply
  server_error_page : Reply
  redirect : Text → Reply

abbrev pub unknown_app : Reply
unknown_app = error_page "This app isn't registered with Drone Drop."

abbrev pub unknown_address : Reply
unknown_address = error_page "This app's return address isn't registered with Drone Drop."

-- Why a request of a known client is sent back to it.
pub record Refusal : Type 0 where
  pub error : Text
  pub description : Text

-- `is_ascii_alphanumeric`, `-` or `_`
abbrev is_challenge_byte : ℕ → Bool
is_challenge_byte b =
    (leb 48 b && leb b 57)
    || (leb 65 b && leb b 90)
    || (leb 97 b && leb b 122)
    || b == 45
    || b == 95

unfoldable pub pkce_ok : AuthorizeQuery → Bool
pkce_ok q =
    let challenge = unwrap_or q.code_challenge [] in
    is_some_and q.code_challenge_method (λ m. same m (text "S256"))
    && byte_len challenge == 43
    && all is_challenge_byte (bytes challenge)

-- A scope that is given and not blank is split; otherwise the resource's own scopes are meant.
unfoldable pub requested_scopes : Option Text → Resource → List Text
requested_scopes none resource = resource.scopes
requested_scopes (some scope) resource =
    if not (is_empty (trim scope)) then split_whitespace scope else resource.scopes

module _ (config : Config) where
  -- Alexa may leave the resource out.
  unfoldable pub resource_uri : Client → AuthorizeQuery → Option Text
  resource_uri client q =
      or_else q.resource
        (if same client.client_id (text "alexa") then some config.mcp_resource_url else none)

  abbrev pub wanted_resource : Client → AuthorizeQuery → Option Resource
  wanted_resource client q = and_then (resource_uri client q) (find_resource (resources config))

  -- The request that is parked, for a resource and its scopes.
  abbrev pub parked_request : Client → Text → AuthorizeQuery → Resource → ParkedRequest
  parked_request client redirect_uri q resource = record {
    client_id = client.client_id;
    redirect_uri = redirect_uri;
    scope = join (text " ") (requested_scopes q.scope resource);
    state = q.state;
    code_challenge = unwrap_or q.code_challenge [];
    resource = resource.uri;
    step_up =
        is_some_and q.acr_values
          (λ values. any (λ v. same v (text "mfa")) (split_whitespace values));
    max_age = q.max_age;
  }

  -- The tests after the client and its address check out, in their order.
  unfoldable pub validate : Client → Text → AuthorizeQuery → Result Refusal ParkedRequest
  validate client redirect_uri q =
      if not (is_some_and q.response_type (λ t. same t (text "code")))
      then err (record {
        error = text "unsupported_response_type";
        description = text "Only the authorization code flow is supported";
      })
      else if not (pkce_ok q)
      then err (record {
        error = text "invalid_request";
        description = text "PKCE with S256 is required";
      })
      else elim (wanted_resource client q) [
        | none ↦
            err (record { error = text "invalid_target"; description = text "Unknown resource" })
        | some resource ↦
            if any (λ scope. not (contains resource.scopes scope))
              (requested_scopes q.scope resource)
            then err (record {
              error = text "invalid_scope";
              description = text "A requested scope isn't available for this resource";
            })
            else ok (parked_request client redirect_uri q resource)
      ]

  module _ (crates : Primitives) (urls : Urls) where
    -- The closure `fail`.
    unfoldable pub refuse_to : Text → AuthorizeQuery → Refusal → Reply
    refuse_to redirect_uri q refusal = redirect (
        redirect_with urls redirect_uri (
          with_state q.state (
            (text "error", refusal.error)
            ∷ (text "error_description", refusal.description)
            ∷ (text "iss", config.issuer)
            ∷ [])))

    -- A reply on either side of the code's `Result` is one reply here.
    unfoldable pub park_reply : Clock → Text → ParkedRequest → World → Reply × World
    park_reply clock request_id parked w =
        let (parking, w') = park crates clock request_id parked w in
        elim parking [
          | ok id ↦ (redirect (config.ui_url ++ text "/sign-in?request=" ++ id), w')
          | err e ↦ (server_error_page, w')
        ]

    unfoldable pub authorize_known :
        Clock → Text → AuthorizeQuery → Client → Text → World → Reply × World
    unfolding validate refuse_to park_reply
    authorize_known clock request_id q client redirect_uri w =
        elim (validate client redirect_uri q) [
          | err refusal ↦ (refuse_to redirect_uri q refusal, w)
          | ok parked ↦ park_reply clock request_id parked w
        ]

    abbrev pub known_client : AuthorizeQuery → World → Option Client
    known_client q w = and_then q.client_id (find_client w.db)

    abbrev pub known_address : AuthorizeQuery → Client → Option Text
    known_address q client =
        and_then q.redirect_uri
          (λ uri. if contains client.redirect_uris uri then some uri else none)

    unfoldable pub authorize_request : Clock → Text → AuthorizeQuery → World → Reply × World
    unfolding authorize_known
    authorize_request clock request_id q w = elim (known_client q w) [
      | none ↦ (unknown_app, w)
      | some client ↦ elim (known_address q client) [
        | none ↦ (unknown_address, w)
        | some redirect_uri ↦ authorize_known clock request_id q client redirect_uri w
      ]
    ]
