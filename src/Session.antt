-- ===== src/Session.antt =====
-- services/auth-service/src/session.rs: sessions, and the cookie that names one.
pub mod Fixture
mod Tests
pub mod Cookie
use Prim.Native.Nat.{ℕ}
use drone_dispatch.Api.{Handler, modify_db, internal, not_signed_in, change_db, unauthorized}
use drone_dispatch.Clock.{Clock, days, whole_seconds}
use drone_dispatch.Common.{
  none, some, true, false, is_some, and_then, if◌then◌else◌, ◌&&◌, Option, List, Bool, ◌==◌, not,
  any, ltb, ◌++◌, ◌∷◌, ◌+◌, [],
}
use drone_dispatch.Common.Exec.{pure, ◌>>=◌, ◌>>◌, gets, ok_or, reject_if}
use drone_dispatch.Common.Int.{ℤ, pos, leb_ℤ}
use drone_dispatch.Common.Table.{count, find, at, insert, delete, update}
use drone_dispatch.Crypto.{Primitives, hash_token}
use drone_dispatch.Db.{Db, SessionRow}
use drone_dispatch.Text.{Text, text, contains, same}
use drone_dispatch.Text.Keyed.{by}

-- The value of the cookie `dd_session`, where the jar holds one.
abbrev pub Jar : Type 0
Jar = Option Text

pub record Session : Type 0 where
  pub id_hash : Text
  pub user_id : ℕ
  pub email : Text
  pub amr : List Text
  pub auth_time : ℕ

abbrev pub session_days : ℕ
session_days = 7

abbrev pub fresh_mfa_secs : ℤ
fresh_mfa_secs = pos 300

abbrev pub second_factor : Text
second_factor = text "hwk"

unfoldable pub has_second_factor : Session → Bool
has_second_factor session = any (λ method. same method second_factor) session.amr

unfoldable pub has_fresh_second_factor : Clock → ℤ → Session → Bool
unfolding has_second_factor
has_fresh_second_factor clock max_age_secs session =
    has_second_factor session && leb_ℤ (whole_seconds clock.utc_now session.auth_time) max_age_secs

unfoldable pub acr : Session → Text
unfolding has_second_factor
acr session = if has_second_factor session then text "mfa" else text "pwd"

pub record Factors : Type 0 where
  pub passkeys : ℕ

abbrev pub any_factor : Factors → Bool
any_factor factors = ltb 0 factors.passkeys

pub record SessionView : Type 0 where
  pub sub : ℕ
  pub email : Text
  pub amr : List Text
  pub auth_time : ℕ
  pub second_factor_pending : Bool
  pub factors : Factors

unfoldable pub factors : Db → ℕ → Factors
factors db user_id = record { passkeys = count (λ p. p.user_id == user_id) db.passkeys }

unfoldable pub view : Db → Session → SessionView
unfolding factors has_second_factor
view db session = record {
  sub = session.user_id;
  email = session.email;
  amr = session.amr;
  auth_time = session.auth_time;
  second_factor_pending =
      any_factor (factors db session.user_id) && not (has_second_factor session);
  factors = factors db session.user_id;
}

-- The two tokens that `start` draws.
pub record SessionDraw : Type 0 where
  pub token : Text
  pub csrf : Text

module _ (crates : Primitives) where
  unfoldable pub end : Jar → Handler Jar
  end none = pure none
  end (some token) = do
    modify_db (λ db. record db {
      sessions = delete (by (λ s. s.id_hash) (hash_token crates token)) db.sessions;
    })
    pure none

  abbrev pub session_row : Clock → SessionDraw → ℕ → List Text → SessionRow
  session_row clock draw user_id amr = record {
    id_hash = hash_token crates draw.token;
    user_id = user_id;
    csrf_token_hash = hash_token crates draw.csrf;
    auth_time = clock.db_now;
    amr = amr;
    expires_at = clock.db_now + days session_days;
  }

  abbrev insert_session : SessionRow → Db → Option Db
  insert_session row db = elim (insert (by (λ s. s.id_hash) row.id_hash) row db.sessions) [
    | none ↦ none
    | some rows ↦ some (record db { sessions = rows })
  ]

  -- The insertion refuses a user id that `users` lacks (its foreign key) and a hash that is taken.
  unfoldable pub start : Clock → SessionDraw → Jar → ℕ → List Text → Handler (Jar × Session)
  unfolding end
  start clock draw jar user_id amr = do
    end jar
    found ← gets (λ w. find (at (λ u. u.id) user_id) w.db.users)
    user ← ok_or found internal
    change_db (insert_session (session_row clock draw user_id amr)) internal
    pure (
      some draw.token,
      record {
        id_hash = hash_token crates draw.token;
        user_id = user_id;
        email = user.email;
        amr = amr;
        auth_time = clock.db_now;
      },
    )

  -- The row of the session joined with its user.
  unfoldable pub session_of : Db → Clock → SessionRow → Option Session
  session_of db clock row = elim (find (at (λ u. u.id) row.user_id) db.users) [
    | none ↦ none
    | some user ↦
        if ltb clock.db_now row.expires_at && not (is_some user.disabled_at)
        then some (record {
          id_hash = row.id_hash;
          user_id = row.user_id;
          email = user.email;
          amr = row.amr;
          auth_time = row.auth_time;
        })
        else none
  ]

  unfoldable pub load : Db → Clock → Jar → Option Session
  unfolding session_of
  load db clock none = none
  load db clock (some token) =
      and_then (find (by (λ s. s.id_hash) (hash_token crates token)) db.sessions)
        (session_of db clock)

  unfoldable pub require : Clock → Jar → Bool → Handler Session
  unfolding load factors has_second_factor
  require clock jar allow_pending = do
    found ← gets (λ w. load w.db clock jar)
    session ← ok_or found not_signed_in
    has_factors ← gets (λ w. any_factor (factors w.db session.user_id))
    reject_if (not allow_pending && not (has_second_factor session) && has_factors)
        (unauthorized "Finish signing in with your second factor" "SECOND_FACTOR_PENDING")
    pure session

abbrev pub add_to_row : Clock → Text → SessionRow → SessionRow
add_to_row clock method row = record row {
  amr = if contains row.amr method then row.amr else row.amr ++ method ∷ [];
  auth_time = clock.db_now;
}

-- `UPDATE … RETURNING` with `fetch_one`: no row is an error.
unfoldable pub add_method : Clock → Session → Text → Handler Session
add_method clock session method = do
  found ← gets (λ w. find (by (λ s. s.id_hash) session.id_hash) w.db.sessions)
  row ← ok_or found internal
  modify_db (λ db. record db {
    sessions = update (by (λ s. s.id_hash) session.id_hash) (add_to_row clock method) db.sessions;
  })
  pure (record session { amr = (add_to_row clock method row).amr; auth_time = clock.db_now })
