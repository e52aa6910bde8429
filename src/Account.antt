-- ===== src/Account.antt =====
-- services/auth-service/src/account.rs: accounts, password sign-in and the Origin guard.
mod Tests
pub mod SignIn
use drone_dispatch.Api.{
  ApiError, bad_request, conflict, Handler, unauthorized, too_many_attempts, internal, forbidden,
  change_db,
}
use drone_dispatch.Clock.{Clock}
use drone_dispatch.Common.{
  none, some, true, false, ℕ, List, Option, Bool, ◌∷◌, ◌==◌, not, and_then, ltb, ◌++◌, ◌&&◌, [],
  if◌then◌else◌, length, ◌||◌, is_some, is_some_and, any, leb,
}
use drone_dispatch.Common.Exec.{Result, ok, ◌>>=◌, ◌>>◌, ok_or, gets, reject_if, pure, err, fail}
use drone_dispatch.Common.Table.{insert, find}
use drone_dispatch.Crypto.{Primitives, hash_password, verify_password}
use drone_dispatch.Db.{User, Db}
use drone_dispatch.Limits.{allowed, record_failure, clear, Limiter}
use drone_dispatch.Session.{start, end, view, require, SessionDraw, Jar, SessionView}
use drone_dispatch.Text.{
  Text, trim, text, split, same, is_empty, split_once, byte_len, contains, is_whitespace,
}

-- Rust's `str::to_lowercase`, and `lower` of Postgres.
pub record Casing : Type 0 where
  pub to_lowercase : Text → Text
  pub sql_lower : Text → Text

abbrev pub min_password_chars : ℕ
min_password_chars = 12

abbrev pub max_password_bytes : ℕ
max_password_bytes = 1024

pub record Credentials : Type 0 where
  pub email : Text
  pub password : Text

-- The request passes or is refused. `read_only` is `GET` or `HEAD`; the header is its text, if it is one.
unfoldable pub origin_guard :
    List Text → (read_only : Bool) → (origin : Option Text) → Result ApiError (Unit {0})
origin_guard allowed_origins read_only origin =
    if not read_only && not (is_some_and origin (λ o. contains allowed_origins o))
    then err (forbidden "This request didn't come from a Drone Drop page" "ORIGIN_NOT_ALLOWED")
    else ok tt

abbrev starts_with_dot : Text → Bool
starts_with_dot [] = false
starts_with_dot (c ∷ t) = c == 46

-- What is left of the tests once the address is split at its first `@`.
unfoldable pub is_mailbox : Text → Text × Text → Bool
is_mailbox email (mailbox, domain) =
    not (is_empty mailbox)
    && any (λ c. c == 46) domain
    && not (starts_with_dot domain)
    && leb (byte_len email) 254
    && not (any is_whitespace email)

unfoldable pub valid_email : Text → Option Text
unfolding is_mailbox
valid_email given =
    let email = trim given in
    and_then (split_once 64 email) (λ parts. if is_mailbox email parts then some email else none)

abbrev first_piece : List Text → Text
first_piece [] = []
first_piece (piece ∷ _) = piece

-- From the header `x-forwarded-for`, where its value is a text.
unfoldable pub client_ip : Option Text → Text
client_ip none = text "unknown"
client_ip (some value) = trim (first_piece (split (λ c. c == 44) value))

abbrev pub is_weak : Text → Bool
is_weak password =
    ltb (length password) min_password_chars || ltb max_password_bytes (byte_len password)

abbrev pub weak_password : ApiError
weak_password = bad_request "Use a password of at least 12 characters" "WEAK_PASSWORD"

abbrev pub email_taken : ApiError
email_taken = conflict "An account with that email already exists" "EMAIL_TAKEN"

-- A query to the limiter, which prunes what it looks at.
abbrev pub attempts_allowed : ℕ → List Text → Handler Bool
attempts_allowed now keys w =
    let (under, limiter) = allowed now keys w.limiter in (ok under, record w { limiter = limiter })

abbrev pub change_limiter : (Limiter → Limiter) → Handler (Unit {0})
change_limiter f w = (ok tt, record w { limiter = f w.limiter })

module _ (casing : Casing) where
  abbrev pub has_email : Text → User → Bool
  has_email email u = same (casing.sql_lower u.email) email

  -- The primary key, and the unique index on `lower(email)`.
  unfoldable pub insert_user : User → Db → Option Db
  insert_user user db =
      elim (insert (λ u. u.id == user.id || has_email (casing.sql_lower user.email) u) user
        db.users) [ none ↦ none | some users ↦ some (record db { users = users }) ]

module _ (crates : Primitives) (casing : Casing) where
  -- A user id, a salt, and what `start` draws.
  pub record SignUpDraw : Type 0 where
    pub user_id : ℕ
    pub salt : List ℕ
    pub session : SessionDraw

  unfoldable pub sign_up : Clock → SignUpDraw → Jar → Credentials → Handler (Jar × SessionView)
  sign_up clock draw jar input = do
    email ←
        ok_or (valid_email input.email) (bad_request "Enter a valid email address" "INVALID_EMAIL")
    reject_if (is_weak input.password) weak_password
    password_hash ← ok_or (hash_password crates draw.salt input.password) internal
    change_db
        (insert_user casing (record {
          id = draw.user_id;
          email = email;
          password_hash = password_hash;
          email_verified_at = none;
          disabled_at = none;
          created_at = clock.db_now;
        }))
        email_taken
    (jar', session) ← start crates clock draw.session jar draw.user_id (text "pwd" ∷ [])
    view ← gets (λ w. view w.db session)
    pure (jar', view)

  abbrev pub account_key : Credentials → Text
  account_key input = text "password:" ++ casing.to_lowercase (trim input.email)

  abbrev pub keys_of : Option Text → Credentials → List Text
  keys_of forwarded_for input =
      account_key input ∷ (text "password-ip:" ++ client_ip forwarded_for) ∷ []

  abbrev pub mismatch : ApiError
  mismatch = unauthorized "That email and password don't match" "INVALID_CREDENTIALS"

  abbrev pub is_enabled_account : Credentials → User → Bool
  is_enabled_account input u =
      has_email casing (casing.to_lowercase (trim input.email)) u && not (is_some u.disabled_at)

  -- The `match` on the password's verdict and the user.
  unfoldable pub settle :
      Clock
      → ℕ
      → SessionDraw
      → Option Text
      → Jar
      → Credentials
      → Bool
      → Option User
      → Handler (Jar × SessionView)
  settle clock failed_at draw forwarded_for jar input true (some user) = do
    change_limiter (clear (account_key input))
    (jar', session) ← start crates clock draw jar user.id (text "pwd" ∷ [])
    view ← gets (λ w. view w.db session)
    pure (jar', view)
  settle clock failed_at draw forwarded_for jar input true none = do
    change_limiter (record_failure failed_at (keys_of forwarded_for input))
    fail mismatch
  settle clock failed_at draw forwarded_for jar input false user = do
    change_limiter (record_failure failed_at (keys_of forwarded_for input))
    fail mismatch

  -- `asked_at` and `failed_at` are the readings of the limiter's clock. An unknown address is checked
  -- against `dummy_hash`.
  unfoldable pub sign_in_password :
      Text
      → Clock
      → (asked_at failed_at : ℕ) → SessionDraw
      → Option Text
      → Jar
      → Credentials
      → Handler (Jar × SessionView)
  unfolding settle
  sign_in_password dummy_hash clock asked_at failed_at draw forwarded_for jar input = do
    under ← attempts_allowed asked_at (keys_of forwarded_for input)
    reject_if (not under) too_many_attempts
    found ← gets (λ w. find (is_enabled_account input) w.db.users)
    settle clock failed_at draw forwarded_for jar input
        (verify_password crates (hash_of dummy_hash found) input.password) found
    where
      hash_of : Text → Option User → Text
      hash_of dummy none = dummy
      hash_of dummy (some user) = user.password_hash

  unfoldable pub get_session : Clock → Jar → Handler SessionView
  get_session clock jar = do session ← require crates clock jar true; gets (λ w. view w.db session)

  unfoldable pub sign_out : Jar → Handler Jar
  sign_out jar = end crates jar
