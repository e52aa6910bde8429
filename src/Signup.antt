-- ===== src/Signup.antt =====
-- services/auth-service/src/signup.rs: sign-up with a code sent by mail.
mod Tests
pub mod Challenge
pub mod Finalize
use drone_dispatch.Session
use drone_dispatch.Account.{
  Casing, insert_user, valid_email, SignUpDraw, has_email, is_weak, weak_password, email_taken,
}
use drone_dispatch.Api.{
  ApiError, bad_request, not_found, Handler, modify_db, conflict, internal, change_db,
  too_many_attempts,
}
use drone_dispatch.Clock.{Clock, seconds, whole_seconds}
use drone_dispatch.Common.{
  none, some, true, false, ℕ, Bool, ◌+◌, ◌%◌, ◌/◌, ◌∷◌, [], is_some, ◌&&◌, suc, or_else,
  if◌then◌else◌, ◌++◌, ltb, leb, Option, ◌-◌, not,
}
use drone_dispatch.Common.Exec.{ok_or, ◌>>=◌, ◌>>◌, ok, gets, reject_if, err, pure, fail}
use drone_dispatch.Common.Int.{ℤ, pos, negsuc, ltb_ℤ}
use drone_dispatch.Common.Table.{find, update, delete, insert}
use drone_dispatch.Config.{Config}
use drone_dispatch.Crypto.{Primitives, hash_token, hashes_match, hash_password}
use drone_dispatch.Db.{Db, SignupChallenge, User}
use drone_dispatch.Session.{view, Jar, SessionView}
use drone_dispatch.Text.{Text, same, trim, text}
use drone_dispatch.Text.Keyed.{by}

abbrev pub max_otp_attempts : ℕ
max_otp_attempts = 5

abbrev invalid_email : ApiError
invalid_email = bad_request "Enter a valid email address" "INVALID_EMAIL"

abbrev challenge_gone : ApiError
challenge_gone = not_found "Signup challenge expired"

-- An instant plus a number of seconds, which may be negative.
abbrev plus_secs : ℕ → ℤ → ℕ
plus_secs t (pos n) = t + seconds n
plus_secs t (negsuc n) = t - seconds (suc n)

-- Six decimal digits.
abbrev digit : ℕ → ℕ → ℕ
digit value place = 48 + value / place % 10

-- `otp`, from the 32 random bits.
unfoldable pub otp_text : ℕ → Text
otp_text bits =
    let v = bits % 1000000 in
    digit v 100000 ∷ digit v 10000 ∷ digit v 1000 ∷ digit v 100 ∷ digit v 10 ∷ digit v 1 ∷ []

-- What the mail server did with a mail: it took it, or `send_signup_otp` failed.
abbrev pub send_mail : Bool → Text → Text → Handler (Unit {0})
send_mail true to otp w = (ok tt, record w { mails = w.mails ++ (to, otp) ∷ [] })
send_mail false to otp w = (err internal, w)

pub record OtpDraw : Type 0 where
  pub challenge_id : Text
  pub bits : ℕ
  pub mail_taken : Bool

pub record ChallengeView : Type 0 where
  pub challenge_id : Text
  pub expires_at : ℕ

module _ (crates : Primitives) (casing : Casing) where
  unfoldable pub normalize_email : Text → Handler Text
  normalize_email value = ok_or (valid_email (casing.to_lowercase (trim value))) invalid_email

  abbrev pub email_exists : Db → Text → Bool
  email_exists db email = is_some (find (has_email casing email) db.users)

  unfoldable pub check_email : Text → Handler Bool
  unfolding normalize_email
  check_email given = do email ← normalize_email given; gets (λ w. email_exists w.db email)

  -- The row that a pair of challenge id and address selects.
  abbrev pub is_challenge : Text → Text → SignupChallenge → Bool
  is_challenge challenge_id email c =
      same c.id_hash (hash_token crates challenge_id) && same c.email_hash (hash_token crates email)

  module _ (config : Config) where
    abbrev new_challenge : Clock → OtpDraw → Text → SignupChallenge
    new_challenge clock draw email = record {
      id_hash = hash_token crates draw.challenge_id;
      email_hash = hash_token crates email;
      otp_hash = hash_token crates (otp_text draw.bits);
      expires_at = plus_secs clock.utc_now config.otp_ttl_secs;
      attempts = 0;
      verified_at = none;
      last_sent_at = clock.db_now;
    }

    unfoldable pub start_challenge : Clock → OtpDraw → Text → Handler ChallengeView
    unfolding normalize_email
    start_challenge clock draw given = do
      email ← normalize_email given
      taken ← gets (λ w. email_exists w.db email)
      reject_if taken
          (conflict "An account with that email already exists. Sign in instead." "EMAIL_TAKEN")
      change_db
          (λ db.
            elim (insert (by (λ c. c.id_hash) (hash_token crates draw.challenge_id))
              (new_challenge clock draw email) db.signup_challenges) [
                | none ↦ none
                | some rows ↦ some (record db { signup_challenges = rows })
              ])
          internal
      send_mail draw.mail_taken email (otp_text draw.bits)
      pure (record {
        challenge_id = draw.challenge_id;
        expires_at = plus_secs clock.utc_now config.otp_ttl_secs;
      })

    abbrev pub renew : Clock → OtpDraw → SignupChallenge → SignupChallenge
    renew clock draw c = record c {
      otp_hash = hash_token crates (otp_text draw.bits);
      expires_at = plus_secs clock.utc_now config.otp_ttl_secs;
      attempts = 0;
      verified_at = none;
      last_sent_at = clock.db_now;
    }

    abbrev is_open_challenge : Clock → Text → Text → SignupChallenge → Bool
    is_open_challenge clock challenge_id email c =
        is_challenge challenge_id email c && ltb clock.db_now c.expires_at

    -- Both statements of `resend` run at one time here, so the second meets the row that the first read.
    unfoldable pub resend : Clock → OtpDraw → (challenge_id given : Text) → Handler ChallengeView
    unfolding normalize_email
    resend clock draw challenge_id given = do
      email ← normalize_email given
      found ← gets (λ w. find (is_open_challenge clock challenge_id email) w.db.signup_challenges)
      row ← ok_or found challenge_gone
      reject_if (ltb_ℤ (whole_seconds clock.utc_now row.last_sent_at) config.otp_resend_secs)
          (conflict "Wait before requesting another code" "OTP_RESEND_TOO_SOON")
      modify_db (λ db. record db {
        signup_challenges =
            update (is_open_challenge clock challenge_id email) (renew clock draw)
              db.signup_challenges;
      })
      send_mail draw.mail_taken email (otp_text draw.bits)
      pure (record {
        challenge_id = challenge_id;
        expires_at = plus_secs clock.utc_now config.otp_ttl_secs;
      })

  abbrev pub count_attempt : SignupChallenge → SignupChallenge
  count_attempt c = record c { attempts = suc c.attempts }

  abbrev pub set_verified : Clock → SignupChallenge → SignupChallenge
  set_verified clock c = record c { verified_at = or_else c.verified_at (some clock.db_now) }

  abbrev pub change_challenge : Text → (SignupChallenge → SignupChallenge) → Handler (Unit {0})
  change_challenge challenge_id f = modify_db (λ db. record db {
    signup_challenges =
        update (by (λ c. c.id_hash) (hash_token crates challenge_id)) f db.signup_challenges;
  })

  -- What `verify` does with a challenge that is neither expired nor verified nor exhausted.
  unfoldable pub check_otp : Clock → Text → Text → SignupChallenge → Handler Bool
  check_otp clock challenge_id otp row =
      if hashes_match row.otp_hash (hash_token crates (trim otp))
      then (do change_challenge challenge_id (set_verified clock); pure true)
      else (do
        change_challenge challenge_id count_attempt
        fail (bad_request "That verification code is incorrect" "INVALID_OTP"))

  unfoldable pub verify_row : Clock → Text → Text → SignupChallenge → Handler Bool
  unfolding check_otp
  verify_row clock challenge_id otp row =
      if leb row.expires_at clock.utc_now
      then fail (conflict "That code has expired" "OTP_EXPIRED")
      else if is_some row.verified_at
      then pure true
      else if leb max_otp_attempts row.attempts
      then fail too_many_attempts
      else check_otp clock challenge_id otp row

  unfoldable pub verify : Clock → (challenge_id given otp : Text) → Handler Bool
  unfolding normalize_email verify_row
  verify clock challenge_id given otp = do
    email ← normalize_email given
    found ← gets (λ w. find (is_challenge challenge_id email) w.db.signup_challenges)
    row ← ok_or found (not_found "Signup challenge not found")
    verify_row clock challenge_id otp row

  abbrev pub is_verified_challenge : Clock → Text → Text → SignupChallenge → Bool
  is_verified_challenge clock challenge_id email c =
      is_challenge challenge_id email c && ltb clock.db_now c.expires_at && is_some c.verified_at

  abbrev pub new_user : Clock → ℕ → Text → Text → User
  new_user clock user_id email password_hash = record {
    id = user_id;
    email = email;
    password_hash = password_hash;
    email_verified_at = some clock.db_now;
    disabled_at = none;
    created_at = clock.db_now;
  }

  -- The transaction of `finalize`.
  unfoldable pub store_user : Text → User → Db → Option Db
  unfolding insert_user
  store_user challenge_id user db = elim (insert_user casing user db) [
    | none ↦ none
    | some db' ↦ some (record db' {
      signup_challenges =
          delete (by (λ c. c.id_hash) (hash_token crates challenge_id)) db'.signup_challenges;
    })
  ]

  -- What `finalize` does once the password is hashed.
  unfoldable pub create_account :
      Clock
      → SignUpDraw crates casing
      → Jar
      → (challenge_id email password_hash : Text) → Handler (Jar × SessionView)
  unfolding store_user
  create_account clock draw jar challenge_id email password_hash = do
    change_db (store_user challenge_id (new_user clock draw.user_id email password_hash))
        email_taken
    (jar', session) ← Session.start crates clock draw.session jar draw.user_id (text "pwd" ∷ [])
    view ← gets (λ w. view w.db session)
    pure (jar', view)

  abbrev pub otp_required : ApiError
  otp_required = conflict "Verify your email before setting a password" "OTP_REQUIRED"

  unfoldable pub finalize :
      Clock
      → SignUpDraw crates casing
      → Jar
      → (challenge_id given password : Text) → Handler (Jar × SessionView)
  unfolding normalize_email create_account
  finalize clock draw jar challenge_id given password = do
    email ← normalize_email given
    reject_if (is_weak password) weak_password
    found ← gets (λ w. find (is_verified_challenge clock challenge_id email) w.db.signup_challenges)
    reject_if (not (is_some found)) otp_required
    password_hash ← ok_or (hash_password crates draw.salt password) internal
    create_account clock draw jar challenge_id email password_hash
