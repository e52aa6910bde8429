-- ===== src/Passkeys/SignIn.antt =====
-- services/auth-service/src/passkeys.rs: a passkey as the way to sign in, and as the second factor.
use drone_dispatch.Account.{client_ip, change_limiter, attempts_allowed}
use drone_dispatch.Api.{ApiError, bad_request, Handler, unauthorized, internal, too_many_attempts}
use drone_dispatch.Clock.{Clock}
use drone_dispatch.Common.{none, some, true, ℕ, Option, List, ◌==◌, ◌++◌, ◌∷◌, [], not, map, length}
use drone_dispatch.Common.Exec.{◌>>=◌, ◌>>◌, gets, pure, reject_if, ok_or, fail}
use drone_dispatch.Crypto.{Primitives}
use drone_dispatch.Limits.{record_failure, clear}
use drone_dispatch.Session.{
  start, require, view, add_method, Jar, SessionDraw, Session, SessionView, second_factor,
}
use drone_dispatch.Text.{Text, text}
use drone_dispatch.Passkeys.{
  Options, Webauthn, authentication, challenge_expired, record_use, same_user, store_challenge,
  take_challenge, user_passkeys,
}

module _ (webauthn : Webauthn) (crates : Primitives) where
  unfoldable pub sign_in_options : Clock → Text → Handler Options
  unfolding store_challenge
  sign_in_options clock challenge_id = do
    (options, ceremony) ← ok_or webauthn.start_discoverable internal
    id ← store_challenge crates clock challenge_id none authentication ceremony
    pure (record { challenge_id = id; options = options })

  abbrev pub not_registered : ApiError
  not_registered = unauthorized "That passkey isn't registered with Drone Drop" "PASSKEY_REJECTED"

  unfoldable pub sign_in :
      Clock → SessionDraw → Jar → (challenge_id credential : Text) → Handler (Jar × SessionView)
  unfolding take_challenge record_use
  sign_in clock draw jar challenge_id credential = do
    row ← take_challenge crates clock challenge_id authentication
    user_id ← ok_or (webauthn.identify credential) not_registered
    passkeys ← gets (λ w. user_passkeys w.db user_id)
    result ←
        ok_or (webauthn.finish_discoverable credential row.state (map (λ p. p.passkey) passkeys))
          not_registered
    record_use webauthn clock passkeys result
    (jar', session) ← start crates clock draw jar user_id (second_factor ∷ [])
    view ← gets (λ w. view w.db session)
    pure (jar', view)

  unfoldable pub second_factor_options : Clock → Text → Jar → Handler Options
  unfolding store_challenge
  second_factor_options clock challenge_id jar = do
    session ← require crates clock jar true
    passkeys ← gets (λ w. user_passkeys w.db session.user_id)
    reject_if (length passkeys == 0)
        (bad_request "No passkey is set up on this account" "NO_PASSKEYS")
    (options, ceremony) ←
        ok_or (webauthn.start_authentication (map (λ p. p.passkey) passkeys)) internal
    id ← store_challenge crates clock challenge_id (some session.user_id) authentication ceremony
    pure (record { challenge_id = id; options = options })

  -- `user_key` is the text of a user id.
  module _ (user_key : ℕ → Text) where
    abbrev pub account_key : Session → Text
    account_key session = text "passkey:" ++ user_key session.user_id

    abbrev pub keys_of : Option Text → Session → List Text
    keys_of forwarded_for session =
        account_key session ∷ (text "passkey-ip:" ++ client_ip forwarded_for) ∷ []

    -- The `match` on the ceremony's outcome.
    unfoldable pub settle : Clock → ℕ → Option Text → Session → Option Text → Handler SessionView
    unfolding record_use
    settle clock failed_at forwarded_for session none = do
      change_limiter (record_failure failed_at (keys_of forwarded_for session))
      fail (unauthorized "That passkey isn't registered to this account" "PASSKEY_REJECTED")
    settle clock failed_at forwarded_for session (some result) = do
      passkeys ← gets (λ w. user_passkeys w.db session.user_id)
      record_use webauthn clock passkeys result
      change_limiter (clear (account_key session))
      session' ← add_method clock session second_factor
      gets (λ w. view w.db session')

    unfoldable pub verify_second_factor :
        Clock
        → (asked_at failed_at : ℕ) → Option Text
        → Jar
        → (challenge_id credential : Text) → Handler SessionView
    unfolding take_challenge settle
    verify_second_factor clock asked_at failed_at forwarded_for jar challenge_id credential = do
      session ← require crates clock jar true
      under ← attempts_allowed asked_at (keys_of forwarded_for session)
      reject_if (not under) too_many_attempts
      row ← take_challenge crates clock challenge_id authentication
      reject_if (not (same_user row.user_id session.user_id)) challenge_expired
      settle clock failed_at forwarded_for session
          (webauthn.finish_authentication credential row.state)
