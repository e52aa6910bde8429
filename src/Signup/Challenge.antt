-- ===== src/Signup/Challenge.antt =====
-- What a sign-up challenge stands for: `verify` accepts only its code, wrong codes use it up, and
-- `finalize` makes an account only of a verified address, once.
use drone_dispatch.Account.{Casing, valid_email}
use drone_dispatch.Api.{World, too_many_attempts}
use drone_dispatch.Clock.{Clock}
use drone_dispatch.Common.{
  ◌≡◌, none, some, true, false, refl, arith, List, [], ◌∷◌, Option, ℕ, All, if◌then◌else◌, Bool,
  leb, ◌≤◌, ◌<◌, length, ◌+◌, is_some, ◌⊎◌, Option-cases, inl, inr,
}
use drone_dispatch.Common.Exec.{ok, err}
use drone_dispatch.Common.Table.{find, find-update, find_sound}
use drone_dispatch.Crypto.{Primitives, hashes_match, hash_token}
use drone_dispatch.Crypto.Matching.{hashes_match_iff}
use drone_dispatch.Db.{SignupChallenge}
use drone_dispatch.Signup.{
  verify, verify_row, check_otp, normalize_email, is_challenge, count_attempt,
}
use drone_dispatch.Text.{Text, trim}
use drone_dispatch.Text.Keyed.{by}

module _ (crates : Primitives) (casing : Casing) where
  -- The address that `normalize_email` makes of what was typed.
  abbrev pub normalized : Text → Option Text
  normalized given = valid_email (casing.to_lowercase (trim given))

  -- `verify` accepts only an unexpired challenge of this id and address, which was verified before or
  -- has had fewer than five wrong codes and is given its code.
  pub verify-ok :
      (clock : Clock) (challenge_id given otp email : Text) (w w' : World) (answer : Bool)
      → normalized given ≡ some email
      → verify crates casing clock challenge_id given otp w ≡ (ok answer, w')
      → (row : SignupChallenge) × (find
            (is_challenge crates casing challenge_id email)
            w.db.signup_challenges
          ≡ some row)
        × (clock.utc_now < row.expires_at)
        × ((is_some row.verified_at ≡ true)
            ⊎ ((row.attempts < 5) × (row.otp_hash ≡ hash_token crates (trim otp))))
  unfolding verify verify_row check_otp normalize_email
  verify-ok clock challenge_id given otp email w w' answer typed e =
      elim (Option-cases
        (find (is_challenge crates casing challenge_id email) w.db.signup_challenges)) [
          | inl missing ↦ ground (arith, typed, missing)
          | inr (row, found) ↦ (
            row,
            found,
            ground (arith, typed, found),
            ground
                (arith, typed, found, hashes_match_iff row.otp_hash (hash_token crates (trim otp))),
          )
        ]

  module _ (challenge_id given email : Text) where
    abbrev the_row : World → Option SignupChallenge
    the_row w = find (is_challenge crates casing challenge_id email) w.db.signup_challenges

    -- A list of attempts, each at its time.
    unfoldable pub guess_all : List (Clock × Text) → World → World
    guess_all [] w = w
    guess_all ((clock, otp) ∷ rest) w =
        guess_all rest (verify crates casing clock challenge_id given otp w).1

    -- A code that is not that of the row, tried before the row expires.
    abbrev pub IsWrong : Text → ℕ → Clock × Text → Type 0
    IsWrong otp_hash expiry (clock, otp) =
        (hashes_match otp_hash (hash_token crates (trim otp)) ≡ false) × (clock.utc_now < expiry)

    abbrev counted : SignupChallenge → SignupChallenge
    counted row = if leb 5 row.attempts then row else count_attempt crates casing row

    verify-wrong :
        (row : SignupChallenge) (clock : Clock) (otp : Text) (w : World)
        → normalized given ≡ some email
        → the_row w ≡ some row
        → row.verified_at ≡ none
        → IsWrong row.otp_hash row.expires_at (clock, otp)
        → the_row (verify crates casing clock challenge_id given otp w).1 ≡ some (counted row)
    unfolding verify verify_row check_otp normalize_email
    verify-wrong row clock otp w typed found unverified (wrong, early) =
        let updated =
          find-update (is_challenge crates casing challenge_id email)
            (by (λ (c : SignupChallenge). c.id_hash) (hash_token crates challenge_id))
            (count_attempt crates casing) w.db.signup_challenges (λ c. refl) in
        let own =
          find_sound (is_challenge crates casing challenge_id email) w.db.signup_challenges found in
        ground (arith, typed, found, unverified, wrong, early, updated, own)

    guess_all-row :
        (otp_hash : Text) (expiry : ℕ) (guesses : List (Clock × Text)) (row : SignupChallenge)
        (w : World)
        → normalized given ≡ some email
        → the_row w ≡ some row
        → row.verified_at ≡ none
        → row.otp_hash ≡ otp_hash
        → row.expires_at ≡ expiry
        → All (IsWrong otp_hash expiry) guesses
        → 5 ≤ row.attempts + length guesses
        → (last : SignupChallenge) × (the_row (guess_all guesses w) ≡ some last)
          × (last.verified_at ≡ none)
          × (5 ≤ last.attempts)
          × (last.expires_at ≡ expiry)
    unfolding guess_all
    guess_all-row otp_hash expiry [] row w typed found unverified own late wrong many =
        (row, found, unverified, omega arith, late)
    guess_all-row otp_hash expiry ((clock, otp) ∷ rest) row w typed found unverified own late
          (now, later) many =
        guess_all-row otp_hash expiry rest (counted row)
          (verify crates casing clock challenge_id given otp w).1 typed
          (verify-wrong row clock otp w typed found unverified
            (ground (arith, now, own), ground (arith, now, late)))
          (ground (arith, unverified)) (ground (arith, own)) (ground (arith, late)) later
          (ground (arith, many))

    -- Five wrong codes before the challenge expires use it up: whatever is tried next before then, the
    -- right code included, is refused, and the state stays as it is.
    pub five_wrong_codes :
        (guesses : List (Clock × Text)) (row : SignupChallenge) (clock : Clock) (otp : Text)
        (w : World)
        → normalized given ≡ some email
        → find (is_challenge crates casing challenge_id email) w.db.signup_challenges ≡ some row
        → row.verified_at ≡ none
        → All (IsWrong row.otp_hash row.expires_at) guesses
        → 5 ≤ length guesses
        → clock.utc_now < row.expires_at
        → verify crates casing clock challenge_id given otp (guess_all guesses w)
          ≡ (err too_many_attempts, guess_all guesses w)
    unfolding verify verify_row normalize_email
    five_wrong_codes guesses row clock otp w typed found unverified wrong many early =
        let (last, here, unchecked, used, same_expiry) =
          guess_all-row row.otp_hash row.expires_at guesses row w typed found unverified refl refl
            wrong (omega arith) in
        ground (arith, typed, here, unchecked, used, same_expiry, early)
