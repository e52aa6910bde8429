-- ===== src/Customer/Tests.antt =====
-- A session that presents a second token, and an operation with a stale passkey.
use drone_dispatch.Common.{
  ◌≡◌, ◌≢◌, ◌⊎◌, ℕ, refl, none, some, [], ◌∷◌, true, false, List, Option, if◌then◌else◌,
}
use drone_dispatch.Verifier.Fixture.{verifier, jwt, claims_of}
use drone_dispatch.Customer.{
  Session, waiting, live, textual, session, Arrival, reply, approve_order, pending,
}
use drone_dispatch.Text.{Text, text, is_empty, same}
use drone_dispatch.Customer.Sessions.{Opened, session-live}
use drone_dispatch.Verifier.{has_fresh_mfa, AccessClaims}
use drone_dispatch.Common.Int.{pos}
use drone_dispatch.Verifier.Extract.{as_i64}
use drone_dispatch.Customer.StepUp.{reply-Fresh, Fresh, challenged}

abbrev token_of : Text → Option Text
token_of t = if is_empty t then none else some t

abbrev arrival : Text → Arrival
arrival t = record { now = 5; fetched = none; message = textual t }

abbrev start : Session
start = record { verifier = verifier; phase = waiting; sent = [] }

abbrev two_tokens : List Arrival
two_tokens = arrival (text "g") ∷ arrival [] ∷ arrival (text "h") ∷ []

still_live : (session jwt token_of true start two_tokens).phase ≡ live (claims_of (text "h"))
unfolding session drone_dispatch.Verifier.verify drone_dispatch.Text.Ascii.eq_ignore_ascii_case
    drone_dispatch.Common.Table.find drone_dispatch.Text.contains
still_live = refl

session-live_example : Opened jwt token_of true (arrival (text "g")) verifier (text "u")
session-live_example =
    session-live jwt token_of true (arrival (text "g")) (arrival [] ∷ arrival (text "h") ∷ []) start
      (claims_of (text "h")) refl still_live

approve_needs_passkey : approve_order ≢ pending
approve_needs_passkey e = cc

abbrev with_passkey : AccessClaims
with_passkey = record (claims_of (text "g")) {
  amr = text "pwd" ∷ text "hwk" ∷ [];
  auth_time = some (pos 700);
}

reply-Fresh_example :
    (Fresh 1000 with_passkey × ((reply (λ t. some t) 1000 approve_order with_passkey).status ≡ 501))
    ⊎ ((¬ (Fresh 1000 with_passkey))
        × (reply (λ t. some t) 1000 approve_order with_passkey ≡ challenged (λ t. some t)))
reply-Fresh_example =
    reply-Fresh (λ t. some t) 1000 with_passkey approve_order approve_needs_passkey

-- A second later, the passkey is too old.
passkey_too_old : reply (λ t. some t) 1001 approve_order with_passkey ≡ challenged (λ t. some t)
unfolding reply has_fresh_mfa as_i64 same drone_dispatch.Verifier.Extract.require_fresh_mfa
    drone_dispatch.Verifier.Extract.into_response drone_dispatch.Verifier.Extract.challenge_step_up
    drone_dispatch.Text.Ascii.decimal_u64
passkey_too_old = refl
