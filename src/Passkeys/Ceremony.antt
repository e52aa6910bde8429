-- ===== src/Passkeys/Ceremony.antt =====
-- A ceremony is used once, by the account it was started for, and a passkey is removed only by its owner.
use drone_dispatch.Account.{settle}
use drone_dispatch.Api.{World}
use drone_dispatch.Clock.{Clock, whole_seconds, seconds}
use drone_dispatch.Common.{
  ◌≡◌, none, some, true, arith, ℕ, Option, ◌≤◌, Option-cases, is_some, inl, ◌==◌, inr, ◌&&◌, ◌<◌,
  any, ◌+◌, Bool-cases, leb,
}
use drone_dispatch.Common.Exec.{ok, err}
use drone_dispatch.Common.Table.{find, find_none, delete, find-delete, find_sound}
use drone_dispatch.Crypto.{Primitives, hash_token}
use drone_dispatch.Db.{WebauthnChallenge}
use drone_dispatch.Limits.{allowed}
use drone_dispatch.Passkeys.{
  same_user, take_challenge, remove, Webauthn, challenge_expired, is_takeable, authentication, owns,
}
use drone_dispatch.Passkeys.SignIn.{keys_of, verify_second_factor}
use drone_dispatch.Session.{
  load, require, Jar, Session, SessionView, has_fresh_second_factor, fresh_mfa_secs,
  has_second_factor,
}
use drone_dispatch.Text.{Text, same, text}
use drone_dispatch.Text.Equality.{same_iff}

-- A challenge that was taken, or looked for, cannot be taken at that time or later.
pub take_challenge-once :
    (crates : Primitives) (clock clock' : Clock) (challenge_id kind : Text) (w : World)
    → clock.db_now ≤ clock'.db_now
    → (take_challenge crates clock' challenge_id kind
        (take_challenge crates clock challenge_id kind w).1).0
      ≡ err challenge_expired
unfolding take_challenge
take_challenge-once crates clock clock' challenge_id kind w later =
    let before = is_takeable crates clock challenge_id kind in
    let after = is_takeable crates clock' challenge_id kind in
    let narrower : (c : WebauthnChallenge) → after c ≡ true → before c ≡ true =
      λ c h. ground (arith, h, later) in
    elim (Option-cases (find before w.db.webauthn_challenges)) [
      | inl missing ↦
          ground (arith, missing, find_none before after w.db.webauthn_challenges narrower missing)
      | inr (row, found) ↦ ground (
        arith,
        found,
        find_none before after (delete before w.db.webauthn_challenges) narrower
            (find-delete before w.db.webauthn_challenges),
      )
    ]

-- A passkey is removed only in a session with the method `hwk` of the last five minutes (less than 301
-- seconds: whole seconds are compared), only if it is the account's own; the passkeys that are left are all but that one.
pub remove-ok :
    (webauthn : Webauthn) (crates : Primitives) (clock : Clock) (jar : Jar) (passkey_id : ℕ)
    (w w' : World) (u : Unit {0})
    → remove webauthn crates clock jar passkey_id w ≡ (ok u, w')
    → (session : Session) × (load crates w.db clock jar ≡ some session)
      × (has_fresh_second_factor clock fresh_mfa_secs session ≡ true)
      × (any (λ m. same m (text "hwk")) session.amr ≡ true)
      × (clock.utc_now < session.auth_time + seconds 301)
      × (is_some (find (λ p. p.id == passkey_id && owns session.user_id p) w.db.passkeys) ≡ true)
      × (w'.db.passkeys ≡ delete (λ p. p.id == passkey_id && owns session.user_id p) w.db.passkeys)
unfolding remove require has_fresh_second_factor has_second_factor whole_seconds
remove-ok webauthn crates clock jar passkey_id w w' u e =
    elim (Option-cases (load crates w.db clock jar)) [
      | inl missing ↦ ground (arith, missing)
      | inr (session, found) ↦ (
        session,
        found,
        ground (arith, found),
        ground (arith, found),
        ground (arith, found, Bool-cases (leb session.auth_time clock.utc_now)),
        ground (arith, found),
        ground (arith, found),
      )
    ]

owner_of_same :
    (owner : Option ℕ) (user_id : ℕ) → same_user owner user_id ≡ true → owner ≡ some user_id
owner_of_same none user_id e = ground arith
owner_of_same (some id) user_id e = ground arith

-- `verify_second_factor` succeeds only while neither the account nor the caller is locked out, with an
-- unexpired challenge that was started for the account of the session, and a credential that finishes
-- the ceremony.
pub verify_second_factor-ok :
    (webauthn : Webauthn) (crates : Primitives) (user_key : ℕ → Text) (clock : Clock)
    (asked_at failed_at : ℕ) (forwarded_for : Option Text) (jar : Jar)
    (challenge_id credential : Text) (w w' : World) (answer : SessionView)
    → verify_second_factor webauthn crates user_key clock asked_at failed_at forwarded_for jar
        challenge_id credential w
      ≡ (ok answer, w')
    → (session : Session) × (row : WebauthnChallenge) × (load crates w.db clock jar ≡ some session)
      × ((allowed asked_at (keys_of webauthn crates user_key forwarded_for session) w.limiter).0
          ≡ true)
      × (find (is_takeable crates clock challenge_id authentication) w.db.webauthn_challenges
          ≡ some row)
      × (row.id_hash ≡ hash_token crates challenge_id)
      × (row.kind ≡ authentication)
      × (clock.db_now < row.expires_at)
      × (row.user_id ≡ some session.user_id)
      × (is_some (webauthn.finish_authentication credential row.state) ≡ true)
unfolding verify_second_factor require take_challenge settle
verify_second_factor-ok webauthn crates user_key clock asked_at failed_at forwarded_for jar
      challenge_id credential w w' answer e =
    elim (Option-cases (load crates w.db clock jar)) [
      | inl missing ↦ ground (arith, missing)
      | inr (session, found) ↦
          elim (Option-cases (
            find (is_takeable crates clock challenge_id authentication) w.db.webauthn_challenges)) [
              | inl none_left ↦ ground (arith, found, none_left)
              | inr (row, taken) ↦
                  let sound =
                    find_sound (is_takeable crates clock challenge_id authentication)
                      w.db.webauthn_challenges taken in
                  (
                    session,
                    row,
                    found,
                    ground (arith, found, taken),
                    taken,
                    ground (arith, sound, same_iff row.id_hash (hash_token crates challenge_id)),
                    ground (arith, sound, same_iff row.kind authentication),
                    ground (arith, sound),
                    owner_of_same row.user_id session.user_id (ground (arith, found, taken)),
                    ground (arith, found, taken),
                  )
            ]
    ]
