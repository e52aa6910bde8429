-- ===== src/Customer.antt =====
-- services/user-service/src/api.rs and live.rs: the customer API, as far as it is implemented, and the live
-- session of a customer.
pub mod StepUp
pub mod Sessions
pub mod Tools
mod Tests
use drone_dispatch.Common.{
  ℕ, Bool, true, false, not, ◌&&◌, Option, none, some, List, [], ◌∷◌, ◌++◌, if◌then◌else◌, and_then,
}
use drone_dispatch.Common.Exec.{Exec, Result, ok, err}
use drone_dispatch.Text.{Text, text, same}
use drone_dispatch.Verifier.{AccessClaims, TokenVerifier, VerifyError, Jwt, Fetched, verify}
use drone_dispatch.Verifier.Extract.{
  Problem, problem, not_implemented, AuthConfig, AuthRejection, authenticated, require_fresh_mfa,
  into_response,
}

abbrev pub step_up_max_age_secs : ℕ
step_up_max_age_secs = 300

-- The operations that need a recent passkey, and those that only need a token.
pub data Operation : Type 0 where
  verify_pickup_location approve_order pending : Operation

fresh_or : (Text → Option Text) → ℕ → AccessClaims → Problem
fresh_or from_header timestamp claims =
    elim (require_fresh_mfa timestamp claims step_up_max_age_secs) [
      | ok u ↦ not_implemented
      | err rejection ↦ into_response from_header rejection
    ]

-- The reply of an operation to a signed-in customer; `timestamp` is the system's clock, in seconds.
unfoldable pub reply : (Text → Option Text) → ℕ → Operation → AccessClaims → Problem
unfolding fresh_or
reply from_header timestamp verify_pickup_location claims = fresh_or from_header timestamp claims
reply from_header timestamp approve_order claims = fresh_or from_header timestamp claims
reply from_header timestamp pending claims = not_implemented

replied :
    (Text → Option Text)
    → ℕ
    → Operation
    → Result AuthRejection AccessClaims × AuthConfig
    → Problem × AuthConfig
replied from_header timestamp operation (ok claims, config) =
    (reply from_header timestamp operation claims, config)
replied from_header timestamp operation (err rejection, config) =
    (into_response from_header rejection, config)

-- Every operation starts with the extractor `Authenticated`.
unfoldable pub serve :
    Jwt
    → (Text → Option Text)
    → (now : ℕ) → Fetched
    → (timestamp : ℕ) → Option Text
    → Operation
    → AuthConfig
    → Problem × AuthConfig
unfolding replied
serve jwt from_header now fetched timestamp authorization operation config =
    replied from_header timestamp operation (authenticated jwt now fetched authorization config)

-- What arrives on the WebSocket: `gone` is a failure, the end of the stream, or, before the first message,
-- that five seconds have passed.
pub data Message : Type 0 where
  textual : Text → Message
  close other gone : Message

pub record Arrival : Type 0 where
  pub now : ℕ
  pub fetched : Fetched
  pub message : Message

pub data Sent : Type 0 where
  ready unknown_message close_unauthorized : Sent

pub data Phase : Type 0 where
  waiting : Phase
  live : AccessClaims → Phase
  closed : Phase

pub record Session : Type 0 where
  pub verifier : TokenVerifier
  pub phase : Phase
  pub sent : List Sent

-- `close_unauthorized`, after a check of a token that may have reloaded the keys.
abbrev pub refuse : TokenVerifier → Session → Session
refuse verifier s = record s {
  verifier = verifier;
  phase = closed;
  sent = s.sent ++ close_unauthorized ∷ [];
}

abbrev pub say : Sent → Session → Session
say reply s = record s { sent = s.sent ++ reply ∷ [] }

-- The answer to the first token; `delivered` says whether `ready` could be sent.
first_token : Bool → Session → Result VerifyError AccessClaims × TokenVerifier → Session
first_token delivered s (err e, v) = refuse v s
first_token delivered s (ok claims, v) =
    if delivered
    then record (say ready s) { verifier = v; phase = live claims }
    else record s { verifier = v; phase = closed }

-- The answer to a later token.
next_token : AccessClaims → Session → Result VerifyError AccessClaims × TokenVerifier → Session
next_token claims s (err e, v) = refuse v s
next_token claims s (ok fresh, v) =
    if same fresh.sub claims.sub then record s { verifier = v; phase = live fresh } else refuse v s

-- `token_of` is serde_json's reading of `{"type": "auth", "token": ...}`.
module _ (jwt : Jwt) (token_of : Text → Option Text) (delivered : Bool) where
  authenticate : Arrival → Message → Session → Session
  unfolding first_token
  authenticate a (textual t) s = elim (token_of t) [
    | none ↦ refuse s.verifier s
    | some token ↦ first_token delivered s (verify jwt a.now a.fetched token s.verifier)
  ]
  authenticate a m s = refuse s.verifier s

  -- The body of the loop of `session`.
  on_message : AccessClaims → Arrival → Message → Session → Session
  unfolding next_token
  on_message claims a (textual t) s = elim (token_of t) [
    | none ↦ say unknown_message s
    | some token ↦ next_token claims s (verify jwt a.now a.fetched token s.verifier)
  ]
  on_message claims a close s = record s { phase = closed }
  on_message claims a gone s = record s { phase = closed }
  on_message claims a other s = s

  by_phase : Phase → Arrival → Session → Session
  unfolding authenticate on_message
  by_phase waiting a s = authenticate a a.message s
  by_phase (live claims) a s = on_message claims a a.message s
  by_phase closed a s = s

  unfoldable pub receive : Arrival → Session → Session
  unfolding by_phase
  receive a s = by_phase s.phase a s

  unfoldable pub session : Session → List Arrival → Session
  unfolding receive
  session s [] = s
  session s (a ∷ rest) = session (receive a s) rest
