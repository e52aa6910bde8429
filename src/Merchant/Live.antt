-- ===== src/Merchant/Live.antt =====
-- services/merchant-service/src/live.rs: the session of the orders board.
use drone_dispatch.Common.{ℕ, Bool, Option, none, some, List, [], ◌∷◌, ◌++◌, if◌then◌else◌}
use drone_dispatch.Common.Exec.{Result, ok, err}
use drone_dispatch.Customer.{
  Message, textual, close, other, gone, Arrival, Sent, ready, close_unauthorized,
}
use drone_dispatch.Text.{Text, text}
use drone_dispatch.Verifier.{AccessClaims, TokenVerifier, VerifyError, Jwt, verify, has_scope}

pub data Phase : Type 0 where
  waiting closed : Phase
  live : Text → ℕ → Phase

pub record Board : Type 0 where
  pub verifier : TokenVerifier
  pub phase : Phase
  pub sent : List Sent

abbrev pub refuse : TokenVerifier → Board → Board
refuse v s = record s { verifier = v; phase = closed; sent = s.sent ++ close_unauthorized ∷ [] }

-- The subject and the business that the session is for.
opened : Bool → ℕ → Board → Result VerifyError AccessClaims × TokenVerifier → Board
opened delivered business s (err e, v) = refuse v s
opened delivered business s (ok claims, v) =
    if has_scope claims (text "merchant")
    then if delivered
      then record s { verifier = v; phase = live claims.sub business; sent = s.sent ++ ready ∷ [] }
      else record s { verifier = v; phase = closed }
    else refuse v s

-- `auth_of` is serde_json's reading of the first message, with its token and business id; `delivered`
-- says whether `ready` could be sent.
module _ (jwt : Jwt) (auth_of : Text → Option (Text × ℕ)) (delivered : Bool) where
  authenticate : Arrival → Message → Board → Board
  unfolding opened
  authenticate a (textual t) s = elim (auth_of t) [
    | none ↦ refuse s.verifier s
    | some (token, business) ↦
        opened delivered business s (verify jwt a.now a.fetched token s.verifier)
  ]
  authenticate a m s = refuse s.verifier s

  -- The loop waits for the end and answers nothing.
  by_phase : Phase → Arrival → Message → Board → Board
  unfolding authenticate
  by_phase waiting a m s = authenticate a m s
  by_phase (live sub business) a close s = record s { phase = closed }
  by_phase (live sub business) a gone s = record s { phase = closed }
  by_phase (live sub business) a (textual t) s = s
  by_phase (live sub business) a other s = s
  by_phase closed a m s = s

  unfoldable pub receive : Arrival → Board → Board
  unfolding by_phase
  receive a s = by_phase s.phase a a.message s
