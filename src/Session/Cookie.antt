-- ===== src/Session/Cookie.antt =====
-- Round trips through the `sessions` table: what a cookie loads after `start`, `end` and `add_method`.
use drone_dispatch.Api.{World}
use drone_dispatch.Clock.{Clock, days}
use drone_dispatch.Common.{
  ◌≡◌, true, false, none, some, arith, ℕ, ◌<◌, refl, List, ◌⊎◌, Option-cases, inl, ◌+◌, inr, ap,
  ◌∙◌, any, sym, ◌++◌, if◌then◌else◌, ◌∷◌, [], Bool-cases,
}
use drone_dispatch.Common.Exec.{ok}
use drone_dispatch.Common.Table.{insert, find-delete, find, at, find-append, delete, update}
use drone_dispatch.Crypto.{Primitives, hash_token}
use drone_dispatch.Db.{SessionRow, User, Db}
use drone_dispatch.Session.{
  start, load, require, end, session_of, Jar, SessionDraw, Session, has_second_factor, factors,
  session_row, add_method, second_factor, add_to_row,
}
use drone_dispatch.Text.{Text, contains, same}
use drone_dispatch.Text.Equality.{same_self}
use drone_dispatch.Text.Keyed.{by, key_of_found, find-update-by}

any-append :
    (method : Text) (amr : List Text) → any (λ m. same m method) (amr ++ method ∷ []) ≡ true
any-append method [] = ground (arith, same_self method)
any-append method (m ∷ amr) = ground (arith, any-append method amr)

any-same :
    (method : Text) (amr : List Text)
    → contains amr method ≡ true
    → any (λ m. same m method) amr ≡ true
unfolding contains
any-same method amr e = e

-- What `array_append`, guarded by `= ANY`, leaves holds the method.
any-contains :
    (amr : List Text) (method : Text)
    → any (λ m. same m method) (if contains amr method then amr else amr ++ method ∷ []) ≡ true
any-contains amr method = elim (Bool-cases (contains amr method)) [
  | inl has ↦ ground (arith, has, any-same method amr has)
  | inr lacks ↦ ground (arith, lacks, any-append method amr)
]

module _ (crates : Primitives) where
  pub started_row :
      (clock clock' : Clock) (draw : SessionDraw) (jar jar' : Jar) (user_id : ℕ) (amr : List Text)
      (w w' : World) (session : Session) (user : User)
      → start crates clock draw jar user_id amr w ≡ (ok (jar', session), w')
      → find (at (λ u. u.id) user_id) w.db.users ≡ some user
      → (jar' ≡ some draw.token)
        × (session ≡ record {
          id_hash = hash_token crates draw.token;
          user_id = user_id;
          email = user.email;
          amr = amr;
          auth_time = clock.db_now;
        })
        × (w'.db.users ≡ w.db.users)
        × (find (by (λ s. s.id_hash) (hash_token crates draw.token)) w'.db.sessions
            ≡ some (session_row crates clock draw user_id amr))
  unfolding start end insert
  started_row clock clock' draw none jar' user_id amr w w' session user e here =
      let hash = hash_token crates draw.token in
      elim (Option-cases (find (by (λ (s : SessionRow). s.id_hash) hash) w.db.sessions)) [
        | inl fresh ↦ ground (
          arith,
          here,
          fresh,
          same_self hash,
          find-append (by (λ (s : SessionRow). s.id_hash) hash) w.db.sessions
              (session_row crates clock draw user_id amr),
        )
        | inr (r, taken) ↦ ground (arith, here, taken)
      ]
  started_row clock clock' draw (some old) jar' user_id amr w w' session user e here =
      let hash = hash_token crates draw.token in
      elim (Option-cases (
        find (by (λ (s : SessionRow). s.id_hash) hash)
          (delete (by (λ s. s.id_hash) (hash_token crates old)) w.db.sessions))) [
            | inl fresh ↦ ground (
              arith,
              here,
              fresh,
              same_self hash,
              find-append (by (λ (s : SessionRow). s.id_hash) hash)
                  (delete (by (λ s. s.id_hash) (hash_token crates old)) w.db.sessions)
                  (session_row crates clock draw user_id amr),
            )
            | inr (r, taken) ↦ ground (arith, here, taken)
          ]

  start-user_id :
      (clock : Clock) (draw : SessionDraw) (jar : Jar) (user_id : ℕ) (amr : List Text) (w : World)
      (started : Jar × Session)
      → (start crates clock draw jar user_id amr w).0 ≡ ok started
      → started.1.user_id ≡ user_id
  unfolding start end
  start-user_id clock draw none user_id amr w started e = ground arith
  start-user_id clock draw (some old) user_id amr w started e = ground arith

  -- `start` succeeds only for a user whose row is stored.
  pub start-user :
      (clock : Clock) (draw : SessionDraw) (jar : Jar) (user_id : ℕ) (amr : List Text) (w : World)
      (started : Jar × Session)
      → (start crates clock draw jar user_id amr w).0 ≡ ok started
      → (user : User) × (find (at (λ u. u.id) user_id) w.db.users ≡ some user)
  unfolding start end
  start-user clock draw none user_id amr w started e =
      elim (Option-cases (find (at (λ (u : User). u.id) user_id) w.db.users)) [
        | inl missing ↦ absurd (ground (arith, missing))
        | inr found ↦ found
      ]
  start-user clock draw (some old) user_id amr w started e =
      elim (Option-cases (find (at (λ (u : User). u.id) user_id) w.db.users)) [
        | inl missing ↦ absurd (ground (arith, missing))
        | inr found ↦ found
      ]

  -- The cookie that `start` sets loads the session that it returned until 7 days have passed, if the
  -- user is not disabled.
  pub start-load :
      (clock clock' : Clock) (draw : SessionDraw) (jar jar' : Jar) (user_id : ℕ) (amr : List Text)
      (w w' : World) (session : Session) (user : User)
      → start crates clock draw jar user_id amr w ≡ (ok (jar', session), w')
      → find (at (λ u. u.id) user_id) w.db.users ≡ some user
      → user.disabled_at ≡ none
      → clock'.db_now < clock.db_now + days 7
      → load crates w'.db clock' jar' ≡ some session
  unfolding load session_of
  start-load clock clock' draw jar jar' user_id amr w w' session user e here enabled later =
      let (same_jar, same_session, same_users, row) =
        started_row clock clock' draw jar jar' user_id amr w w' session user e here in
      let user_here = ap (find (at (λ (u : User). u.id) user_id)) same_users ∙ here in
      rw (same_jar, same_session, row) (ground (arith, user_here, enabled, later))

  -- After `end`, the cookie that was ended loads no session.
  pub end-load :
      (clock' : Clock) (jar : Jar) (w : World)
      → load crates (end crates jar w).1.db clock' jar ≡ none
  unfolding load end
  end-load clock' none w = refl
  end-load clock' (some token) w =
      rw (find-delete (by (λ (s : SessionRow). s.id_hash) (hash_token crates token)) w.db.sessions)
        refl

  -- `require` lets a pending session through only where it is told to: a session that it returns is the
  -- one that the cookie loads, and it has a second factor or the account has no passkey.
  pub require-ok :
      (clock : Clock) (jar : Jar) (w w' : World) (session : Session)
      → require crates clock jar false w ≡ (ok session, w')
      → (w' ≡ w)
        × (load crates w.db clock jar ≡ some session)
        × ((has_second_factor session ≡ true) ⊎ ((factors w.db session.user_id).passkeys ≡ 0))
  unfolding require
  require-ok clock jar w w' session e = elim (Option-cases (load crates w.db clock jar)) [
    | inl missing ↦ ground (arith, missing)
    | inr (s, found) ↦ ground (arith, found)
  ]

  session_of-add_to_row :
      (db db' : Db) (clock clock' : Clock) (row : SessionRow) (session : Session) (method : Text)
      → session_of crates db clock' row ≡ some session
      → db'.users ≡ db.users
      → (session.id_hash ≡ row.id_hash)
        × (session_of crates db' clock' (add_to_row clock method row)
            ≡ some (record session {
              amr = (add_to_row clock method row).amr;
              auth_time = clock.db_now;
            }))
  unfolding session_of
  session_of-add_to_row db db' clock clock' row session method e same_users =
      elim (Option-cases (find (at (λ (u : User). u.id) row.user_id) db.users)) [
        | inl missing ↦ ground (arith, missing)
        | inr (user, found) ↦
            ground
              (arith, found, ap (find (at (λ (u : User). u.id) row.user_id)) same_users ∙ found)
      ]

  abbrev with_method : Clock → Text → Session → SessionRow → Session
  with_method clock method session row = record session {
    amr = (add_to_row clock method row).amr;
    auth_time = clock.db_now;
  }

  abbrev db_with : Clock → Text → Session → Db → Db
  db_with clock method session db = record db {
    sessions = update (by (λ s. s.id_hash) session.id_hash) (add_to_row clock method) db.sessions;
  }

  add_method-added :
      (clock : Clock) (session : Session) (method : Text) (w : World) (row : SessionRow)
      → find (by (λ s. s.id_hash) session.id_hash) w.db.sessions ≡ some row
      → add_method clock session method w ≡ (
        ok (with_method clock method session row),
        record w { db = db_with clock method session w.db },
      )
  unfolding add_method
  add_method-added clock session method w row here = rw here refl

  has_second_factor-added :
      (clock : Clock) (session : Session) (row : SessionRow)
      → has_second_factor (with_method clock second_factor session row) ≡ true
  unfolding has_second_factor
  has_second_factor-added clock session row = any-contains row.amr second_factor

  -- A second factor that is added to the session of a cookie counts from then on: whenever the cookie
  -- would have loaded the session, it now loads it with the second factor, authenticated at the time of
  -- the request that added it.
  pub add_method-load :
      (clock clock' : Clock) (jar : Jar) (w w' : World) (session added : Session)
      → load crates w.db clock' jar ≡ some session
      → add_method clock session second_factor w ≡ (ok added, w')
      → (load crates w'.db clock' jar ≡ some added)
        × (has_second_factor added ≡ true)
        × (added.auth_time ≡ clock.db_now)
        × (added.user_id ≡ session.user_id)
  unfolding load add_method
  add_method-load clock clock' none w w' session added e f = ground arith
  add_method-load clock clock' (some token) w w' session added e f =
      let hash = hash_token crates token in
      elim (Option-cases (find (by (λ (s : SessionRow). s.id_hash) hash) w.db.sessions)) [
        | inl missing ↦ ground (arith, missing)
        | inr (row, found) ↦
            let (own, after) =
              session_of-add_to_row w.db (db_with clock second_factor session w.db) clock clock' row
                session second_factor (ground (arith, found)) refl in
            let keyed = key_of_found (λ (s : SessionRow). s.id_hash) hash w.db.sessions found in
            let here =
              ap (λ h. find (by (λ (s : SessionRow). s.id_hash) h) w.db.sessions) (own ∙ keyed)
              ∙ found in
            let did = sym (add_method-added clock session second_factor w row here) ∙ f in
            ground (
              arith,
              did,
              after,
              found,
              own ∙ keyed,
              same_self hash,
              has_second_factor-added clock session row,
              find-update-by (λ (s : SessionRow). s.id_hash) session.id_hash hash
                  (add_to_row clock second_factor) w.db.sessions (λ r. refl),
            )
      ]
