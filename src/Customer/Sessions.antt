-- ===== src/Customer/Sessions.antt =====
-- A live session stays with the customer who opened it.
use mathlib.Core.Path.{subst}
use drone_dispatch.Common.{
  ◌≡◌, refl, Option, Bool, Option-cases, inl, arith, inr, List, some, ◌≢◌, ◌∷◌, [], sym,
}
use drone_dispatch.Customer.{
  Session, Phase, waiting, live, closed, textual, close, gone, other, receive, session, next_token,
  on_message, Arrival, Message, by_phase, first_token, authenticate,
}
use drone_dispatch.Text.{Text}
use drone_dispatch.Verifier.{Jwt, AccessClaims, VerifyError, TokenVerifier, verify}
use drone_dispatch.Common.Exec.{Result, err, ok}
use drone_dispatch.Text.Equality.{same_iff}

-- The session has only ever been live for a subject.
abbrev pub IsOf : Text → Session → Type 0
IsOf sub s = (claims : AccessClaims) → s.phase ≡ live claims → claims.sub ≡ sub

module _ (jwt : Jwt) (token_of : Text → Option Text) (delivered : Bool) where
  next_token-IsOf :
      (sub : Text) (claims : AccessClaims) (s : Session)
      (checked : Result VerifyError AccessClaims × TokenVerifier)
      → claims.sub ≡ sub
      → IsOf sub (next_token claims s checked)
  unfolding next_token
  next_token-IsOf sub claims s (err e, v) mine c live_now = ground arith
  next_token-IsOf sub claims s (ok fresh, v) mine c live_now =
      ground (arith, same_iff fresh.sub claims.sub)

  on_message-IsOf :
      (sub : Text) (claims : AccessClaims) (a : Arrival) (m : Message) (s : Session)
      → claims.sub ≡ sub
      → s.phase ≡ live claims
      → IsOf sub (on_message jwt token_of delivered claims a m s)
  unfolding on_message
  on_message-IsOf sub claims a (textual t) s mine now c e = elim (Option-cases (token_of t)) [
    | inl unknown ↦ ground (arith, unknown, e)
    | inr (token, read) ↦
        next_token-IsOf sub claims s (verify jwt a.now a.fetched token s.verifier) mine c
          (ground (arith, read, e))
  ]
  on_message-IsOf sub claims a close s mine now c e = absurd (ground (arith, e))
  on_message-IsOf sub claims a gone s mine now c e = absurd (ground (arith, e))
  on_message-IsOf sub claims a other s mine now c e = ground (arith, e)

  by_phase-IsOf :
      (sub : Text) (phase : Phase) (a : Arrival) (s : Session)
      → phase ≢ waiting
      → s.phase ≡ phase
      → IsOf sub s
      → IsOf sub (by_phase jwt token_of delivered phase a s)
  unfolding by_phase
  by_phase-IsOf sub waiting a s moved at h c e = absurd (moved refl)
  by_phase-IsOf sub (live claims) a s moved at h c e =
      on_message-IsOf sub claims a a.message s (h claims at) at c e
  by_phase-IsOf sub closed a s moved at h c e = h c e

  next_token-moved :
      (claims : AccessClaims) (s : Session)
      (checked : Result VerifyError AccessClaims × TokenVerifier)
      → (next_token claims s checked).phase ≢ waiting
  unfolding next_token
  next_token-moved claims s (err e, v) w = ground arith
  next_token-moved claims s (ok fresh, v) w = ground arith

  on_message-moved :
      (claims : AccessClaims) (a : Arrival) (m : Message) (s : Session)
      → s.phase ≡ live claims
      → (on_message jwt token_of delivered claims a m s).phase ≢ waiting
  unfolding on_message
  on_message-moved claims a (textual t) s now w = elim (Option-cases (token_of t)) [
    | inl unknown ↦ ground (arith, unknown, now, w)
    | inr (token, read) ↦
        next_token-moved claims s (verify jwt a.now a.fetched token s.verifier)
          (ground (arith, read, w))
  ]
  on_message-moved claims a close s now w = ground arith
  on_message-moved claims a gone s now w = ground arith
  on_message-moved claims a other s now w = ground (arith, now, w)

  -- A session does not wait again.
  by_phase-moved :
      (phase : Phase) (a : Arrival) (s : Session)
      → s.phase ≡ phase
      → phase ≢ waiting
      → (by_phase jwt token_of delivered phase a s).phase ≢ waiting
  unfolding by_phase
  by_phase-moved waiting a s at moved e = moved refl
  by_phase-moved (live claims) a s at moved e = on_message-moved claims a a.message s at e
  by_phase-moved closed a s at moved e = ground (arith, at, e)

  session-IsOf :
      (sub : Text) (arrivals : List Arrival) (s : Session)
      → s.phase ≢ waiting
      → IsOf sub s
      → IsOf sub (session jwt token_of delivered s arrivals)
  unfolding session receive
  session-IsOf sub [] s moved h = h
  session-IsOf sub (a ∷ rest) s moved h =
      session-IsOf sub rest (receive jwt token_of delivered a s)
        (by_phase-moved s.phase a s refl moved) (by_phase-IsOf sub s.phase a s moved refl h)

  abbrev pub Opened : Arrival → TokenVerifier → Text → Type 0
  Opened a v sub =
      (t : Text) × (token : Text) × (claims : AccessClaims) × (a.message ≡ textual t)
      × (token_of t ≡ some token)
      × ((verify jwt a.now a.fetched token v).0 ≡ ok claims)
      × (claims.sub ≡ sub)

  first_token-cases :
      (s : Session) (checked : Result VerifyError AccessClaims × TokenVerifier)
      → ((first_token delivered s checked).phase ≢ waiting)
        × ((claims : AccessClaims)
            → (first_token delivered s checked).phase ≡ live claims
            → checked.0 ≡ ok claims)
  unfolding first_token
  first_token-cases s (err e, v) = (λ w. ground arith, λ c w. ground arith)
  first_token-cases s (ok claims, v) = (λ w. ground arith, λ c w. ground arith)

  authenticate-moved :
      (a : Arrival) (m : Message) (s : Session)
      → (authenticate jwt token_of delivered a m s).phase ≢ waiting
  unfolding authenticate
  authenticate-moved a (textual t) s w = elim (Option-cases (token_of t)) [
    | inl unknown ↦ ground (arith, unknown, w)
    | inr (token, read) ↦
        (first_token-cases s (verify jwt a.now a.fetched token s.verifier)).0
          (ground (arith, read, w))
  ]
  authenticate-moved a close s w = ground arith
  authenticate-moved a gone s w = ground arith
  authenticate-moved a other s w = ground arith

  -- What opens a session: a text with an accepted token, whose claims then hold.
  authenticate-live :
      (a : Arrival) (m : Message) (s : Session) (claims : AccessClaims)
      → (authenticate jwt token_of delivered a m s).phase ≡ live claims
      → (t : Text) × (token : Text) × (m ≡ textual t)
        × (token_of t ≡ some token)
        × ((verify jwt a.now a.fetched token s.verifier).0 ≡ ok claims)
  unfolding authenticate
  authenticate-live a (textual t) s claims e = elim (Option-cases (token_of t)) [
    | inl unknown ↦ absurd (ground (arith, unknown, e))
    | inr (token, read) ↦ (
      t,
      token,
      refl,
      read,
      (first_token-cases s (verify jwt a.now a.fetched token s.verifier)).1 claims
          (ground (arith, read, e)),
    )
  ]
  authenticate-live a close s claims e = absurd (ground (arith, e))
  authenticate-live a gone s claims e = absurd (ground (arith, e))
  authenticate-live a other s claims e = absurd (ground (arith, e))

  session-closed :
      (arrivals : List Arrival) (s : Session)
      → s.phase ≡ closed
      → (session jwt token_of delivered s arrivals).phase ≡ closed
  unfolding session receive by_phase
  session-closed [] s e = e
  session-closed (a ∷ rest) s e =
      session-closed rest (receive jwt token_of delivered a s) (ground (arith, e))

  -- The rest of a session whose first message led to a phase.
  followed :
      (phase : Phase) (a : Arrival) (rest : List Arrival) (s : Session) (claims : AccessClaims)
      → (authenticate jwt token_of delivered a a.message s).phase ≡ phase
      → (session jwt token_of delivered
          (authenticate jwt token_of delivered a a.message s)
          rest).phase
        ≡ live claims
      → Opened a s.verifier claims.sub
  followed waiting a rest s claims at e = absurd (authenticate-moved a a.message s at)
  followed closed a rest s claims at e = absurd (
      ground (arith, session-closed rest (authenticate jwt token_of delivered a a.message s) at, e))
  followed (live first) a rest s claims at e =
      let (t, token, sent, read, accepted) = authenticate-live a a.message s first at in
      let start = authenticate jwt token_of delivered a a.message s in
      let same_subject =
        session-IsOf first.sub rest start (λ w. ground (arith, at, w))
          (λ c now. ground (arith, at, now)) claims e in
      (t, token, first, sent, read, accepted, sym same_subject)

  -- However a customer's session goes on, while it is live it is live for the subject of the accepted token
  -- that its first message carried.
  pub session-live :
      (a : Arrival) (rest : List Arrival) (s : Session) (claims : AccessClaims)
      → s.phase ≡ waiting
      → (session jwt token_of delivered s (a ∷ rest)).phase ≡ live claims
      → Opened a s.verifier claims.sub
  unfolding session receive by_phase
  session-live a rest s claims waits e =
      followed (authenticate jwt token_of delivered a a.message s).phase a rest s claims refl (
        subst
          (λ p.
            (session jwt token_of delivered (by_phase jwt token_of delivered p a s) rest).phase
            ≡ live claims)
          waits e)
