-- ===== src/Passkeys.antt =====
-- services/auth-service/src/passkeys.rs: passkeys, the only second factor.
mod Tests
pub mod SignIn
pub mod Ceremony
pub mod Listing
use drone_dispatch.Account.{client_ip, change_limiter, attempts_allowed}
use drone_dispatch.Api.{
  ApiError, bad_request, Handler, unauthorized, change_db, modify_db, internal, conflict,
  too_many_attempts, fresh_mfa_required, not_found,
}
use drone_dispatch.Clock.{Clock, seconds}
use drone_dispatch.Common.{
  none, some, true, false, ℕ, Option, List, Bool, ◌==◌, is_some_and, ◌++◌, ◌∷◌, ◌+◌, ◌&&◌, ◌||◌,
  ltb, [], not, map, length, if◌then◌else◌, is_some,
}
use drone_dispatch.Common.Exec.{◌>>=◌, ◌>>◌, gets, pure, reject_if, ok_or, fail}
use drone_dispatch.Common.Table.{find, insert, at, select, delete, update}
use drone_dispatch.Crypto.{Primitives, hash_token}
use drone_dispatch.Db.{Db, PasskeyRow, WebauthnChallenge}
use drone_dispatch.Limits.{allowed, record_failure, clear}
use drone_dispatch.Session.{
  start, require, view, add_method, Jar, SessionDraw, Session, SessionView, has_fresh_second_factor,
  second_factor, fresh_mfa_secs,
}
use drone_dispatch.Text.{Text, text, same, trim, is_empty}
use drone_dispatch.Text.Keyed.{by}

abbrev pub challenge_ttl_secs : ℕ
challenge_ttl_secs = 300

abbrev pub challenge_expired : ApiError
challenge_expired = bad_request "That took too long. Please try again." "CHALLENGE_EXPIRED"

abbrev pub registration : Text
registration = text "REGISTRATION"

abbrev pub authentication : Text
authentication = text "AUTHENTICATION"

-- What webauthn-rs gives. A ceremony's state, a passkey and a browser's credential are their JSON texts;
-- a result is the text of an `AuthenticationResult`. `none` is the crate's error.
pub record Webauthn : Type 0 where
  pub start_registration : ℕ → Text → List (List ℕ) → Option (Text × Text)
  pub finish_registration : (credential ceremony : Text) → Option Text
  pub start_discoverable : Option (Text × Text)
  pub identify : (credential : Text) → Option ℕ
  pub finish_discoverable : (credential ceremony : Text) → List Text → Option Text
  pub start_authentication : List Text → Option (Text × Text)
  pub finish_authentication : (credential ceremony : Text) → Option Text
  pub passkey_id : Text → List ℕ
  pub result_id : Text → List ℕ
  pub update_credential : (passkey result : Text) → Text

-- The options that the browser is given, and the id of the ceremony.
pub record Options : Type 0 where
  pub challenge_id : Text
  pub options : Text

abbrev pub owns : ℕ → PasskeyRow → Bool
owns user_id p = p.user_id == user_id

module _ (crates : Primitives) where
  abbrev pub challenge_row : Clock → Text → Option ℕ → Text → Text → WebauthnChallenge
  challenge_row clock challenge_id user_id kind ceremony = record {
    id_hash = hash_token crates challenge_id;
    user_id = user_id;
    kind = kind;
    state = ceremony;
    expires_at = clock.db_now + seconds challenge_ttl_secs;
  }

  unfoldable pub store_challenge : Clock → Text → Option ℕ → Text → Text → Handler Text
  store_challenge clock challenge_id user_id kind ceremony = do
    change_db
        (λ db.
          elim (insert (by (λ c. c.id_hash) (hash_token crates challenge_id))
            (challenge_row clock challenge_id user_id kind ceremony) db.webauthn_challenges) [
              | none ↦ none
              | some rows ↦ some (record db { webauthn_challenges = rows })
            ])
        internal
    pure challenge_id

  abbrev pub is_takeable : Clock → Text → Text → WebauthnChallenge → Bool
  is_takeable clock challenge_id kind c =
      same c.id_hash (hash_token crates challenge_id)
      && same c.kind kind
      && ltb clock.db_now c.expires_at

  -- `DELETE … RETURNING`
  unfoldable pub take_challenge : Clock → (challenge_id kind : Text) → Handler WebauthnChallenge
  take_challenge clock challenge_id kind = do
    found ← gets (λ w. find (is_takeable clock challenge_id kind) w.db.webauthn_challenges)
    row ← ok_or found challenge_expired
    modify_db (λ db. record db {
      webauthn_challenges = delete (is_takeable clock challenge_id kind) db.webauthn_challenges;
    })
    pure row

-- The rows of an account's passkeys, if the account is not disabled.
unfoldable pub user_passkeys : Db → ℕ → List PasskeyRow
user_passkeys db user_id = elim (find (at (λ u. u.id) user_id) db.users) [
  | none ↦ []
  | some user ↦ if is_some user.disabled_at then [] else select (owns user_id) db.passkeys
]

abbrev pub same_user : Option ℕ → ℕ → Bool
same_user owner user_id = is_some_and owner (λ id. id == user_id)

module _ (webauthn : Webauthn) where
  abbrev pub used : Clock → Text → PasskeyRow → PasskeyRow
  used clock result p = record p {
    passkey = webauthn.update_credential p.passkey result;
    last_used_at = some clock.db_now;
  }

  -- The first of the passkeys with the result's credential id is written back.
  unfoldable pub record_use : Clock → List PasskeyRow → Text → Handler (Unit {0})
  record_use clock passkeys result =
      elim (find (λ p. same (webauthn.passkey_id p.passkey) (webauthn.result_id result)) passkeys) [
        | none ↦ pure tt
        | some row ↦ modify_db (λ db. record db {
          passkeys = update (at (λ p. p.id) row.id) (used clock result) db.passkeys;
        })
      ]

  module _ (crates : Primitives) where
    unfoldable pub registration_options : Clock → Text → Jar → Handler Options
    unfolding store_challenge
    registration_options clock challenge_id jar = do
      session ← require crates clock jar false
      existing ← gets (λ w. select (owns session.user_id) w.db.passkeys)
      (options, ceremony) ←
          ok_or
            (webauthn.start_registration session.user_id session.email
              (map (λ p. p.credential_id) existing))
            internal
      id ← store_challenge crates clock challenge_id (some session.user_id) registration ceremony
      pure (record { challenge_id = id; options = options })

    abbrev pub new_passkey : Clock → ℕ → ℕ → Text → Text → PasskeyRow
    new_passkey clock id user_id name passkey = record {
      id = id;
      user_id = user_id;
      credential_id = webauthn.passkey_id passkey;
      passkey = passkey;
      name = name;
      created_at = clock.db_now;
      last_used_at = none;
    }

    -- The primary key, and the unique credential id.
    abbrev insert_passkey : PasskeyRow → Db → Option Db
    insert_passkey row db =
        elim (insert (λ p. p.id == row.id || same p.credential_id row.credential_id) row
          db.passkeys) [ none ↦ none | some rows ↦ some (record db { passkeys = rows }) ]

    unfoldable pub add :
        Clock → (id : ℕ) → Jar → (challenge_id name credential : Text) → Handler SessionView
    unfolding take_challenge
    add clock id jar challenge_id given credential = do
      session ← require crates clock jar false
      let name = trim given in
          do
            reject_if (is_empty name || ltb 60 (length name))
                (bad_request "Give the passkey a name of up to 60 characters" "INVALID_NAME")
            row ← take_challenge crates clock challenge_id registration
            reject_if (not (same_user row.user_id session.user_id)) challenge_expired
            passkey ←
                ok_or (webauthn.finish_registration credential row.state)
                  (bad_request "Your device couldn't create the passkey" "PASSKEY_REJECTED")
            change_db (insert_passkey (new_passkey clock id session.user_id name passkey))
                (conflict "That passkey is already registered" "PASSKEY_EXISTS")
            session' ← add_method clock session second_factor
            gets (λ w. view w.db session')

    unfoldable pub remove : Clock → Jar → (passkey_id : ℕ) → Handler (Unit {0})
    remove clock jar passkey_id = do
      session ← require crates clock jar false
      reject_if (not (has_fresh_second_factor clock fresh_mfa_secs session)) fresh_mfa_required
      found ← gets (λ w. find (λ p. p.id == passkey_id && owns session.user_id p) w.db.passkeys)
      reject_if (not (is_some found)) (not_found "Passkey not found")
      modify_db (λ db. record db {
        passkeys = delete (λ p. p.id == passkey_id && owns session.user_id p) db.passkeys;
      })
