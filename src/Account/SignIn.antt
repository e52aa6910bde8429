-- ===== src/Account/SignIn.antt =====
-- Password sign-in on each of its branches, and the addresses that `valid_email` takes.
use drone_dispatch.Account.{
  Casing, Credentials, sign_in_password, settle, keys_of, is_enabled_account, mismatch, account_key,
  client_ip,
}
use drone_dispatch.Api.{World, ApiError, too_many_attempts}
use drone_dispatch.Clock.{Clock, days}
use drone_dispatch.Common.{
  ◌≡◌, ◌≤◌, ◌<◌, ◌+◌, ◌⊎◌, ◌++◌, List, ap, none, some, true, false, refl, arith, ℕ, Option, Bool,
  Option-cases, inl, inr, ◌∷◌, [],
}
use drone_dispatch.Common.Exec.{ok, err, Result}
use drone_dispatch.Common.Exec.Inversion.{bind-eq-ok, pair_eq}
use drone_dispatch.Common.Table.{find}
use drone_dispatch.Crypto.{Primitives, verify_password, hash_token}
use drone_dispatch.Db.{User}
use drone_dispatch.Limits.{allowed, record_failure, clear, Limiter, new}
use drone_dispatch.Limits.Log.{Call, run, log_run, InOrder}
use drone_dispatch.Limits.Lockout.{allowed-run, empty_log}
use drone_dispatch.Limits.Window.{recent}
use drone_dispatch.Text.Keyed.{by}
use drone_dispatch.Session.{SessionDraw, Jar, SessionView, start, view}
use drone_dispatch.Session.Cookie.{start-user, started_row}
use drone_dispatch.Text.{Text, text, trim}

module _ (crates : Primitives) (casing : Casing) (dummy_hash : Text) (clock : Clock)
    (asked_at failed_at : ℕ) (draw : SessionDraw) (forwarded_for : Option Text) (jar : Jar)
    (input : Credentials) (w : World) where
  abbrev asked : Bool × Limiter
  asked = allowed asked_at (keys_of crates casing forwarded_for input) w.limiter

  abbrev account : Option User
  account = find (is_enabled_account crates casing input) w.db.users

  abbrev reply : Result ApiError (Jar × SessionView) × World
  reply =
      sign_in_password crates casing dummy_hash clock asked_at failed_at draw forwarded_for jar
        input w

  settle-none :
      (verified : Bool) (v : World)
      → settle crates casing clock failed_at draw forwarded_for jar input verified none v ≡ (
        err (mismatch crates casing),
        record v {
          limiter = record_failure failed_at (keys_of crates casing forwarded_for input) v.limiter;
        },
      )
  unfolding settle
  settle-none true v = refl
  settle-none false v = refl

  -- The answer to a sign-in: the cookie names a new session of the user, with the method `pwd`, that began
  -- now and lasts for 7 days, and the view is of that session.
  pub record SignedIn (user : User) (answer : Jar × SessionView) (w' : World) : Type 0 where
    pub cookie : answer.0 ≡ some draw.token
    pub row :
        find (by (λ r. r.id_hash) (hash_token crates draw.token)) w'.db.sessions
        ≡ some (record {
          id_hash = hash_token crates draw.token;
          user_id = user.id;
          csrf_token_hash = hash_token crates draw.csrf;
          auth_time = clock.db_now;
          amr = text "pwd" ∷ [];
          expires_at = clock.db_now + days 7;
        })
    pub sub : answer.1.sub ≡ user.id
    pub amr : answer.1.amr ≡ text "pwd" ∷ []
    pub auth_time : answer.1.auth_time ≡ clock.db_now

  settle-SignedIn :
      (user : User) (v v' : World) (answer : Jar × SessionView)
      → settle crates casing clock failed_at draw forwarded_for jar input true (some user) v
        ≡ (ok answer, v')
      → SignedIn user answer v'
  unfolding settle view
  settle-SignedIn user v v' answer e =
      let cleared = record v { limiter = clear (account_key crates casing input) v.limiter } in
      let ((jar', session), known, rest) =
        bind-eq-ok (start crates clock draw jar user.id (text "pwd" ∷ [])) _ cleared e in
      let after = (start crates clock draw jar user.id (text "pwd" ∷ []) cleared).1 in
      let (row_user, here) =
        start-user crates clock draw jar user.id (text "pwd" ∷ []) cleared (jar', session) known in
      let (same_jar, same_session, same_users, row) =
        started_row crates clock clock draw jar jar' user.id (text "pwd" ∷ []) cleared after session
          row_user (pair_eq known) here in
      record {
        cookie = ground (arith, rest, same_jar);
        row = ground (arith, rest, row);
        sub = ground (arith, rest, same_session);
        amr = ground (arith, rest, same_session);
        auth_time = ground (arith, rest, same_session);
      }

  -- The keys of the limiter: the account, and the address of the caller.
  abbrev pub of_account : Text
  of_account = text "password:" ++ casing.to_lowercase (trim input.email)

  abbrev pub of_address : Text
  of_address = text "password-ip:" ++ client_ip forwarded_for

  -- Where the limiter has served any calls whose clock readings do not go back, and as many failures as its
  -- positive maximum lie inside the window, for the account or for the caller's address, a sign-in is refused
  -- with "too many attempts", with whatever password, a right one too, and the tables stay as they are.
  pub sign_in_password-locked :
      (max_failures window : ℕ) (calls : List Call)
      → 0 < max_failures
      → w.limiter ≡ run (new max_failures window) calls
      → InOrder 0 calls asked_at
      → (max_failures ≤ recent window asked_at (log_run empty_log calls of_account))
        ⊎ (max_failures ≤ recent window asked_at (log_run empty_log calls of_address))
      → (reply.0 ≡ err too_many_attempts) × (reply.1.db ≡ w.db)
  unfolding sign_in_password
  sign_in_password-locked max_failures window calls positive served order full =
      let over : asked.0 ≡ false = ground (
        arith,
        ap (λ l. (allowed asked_at (keys_of crates casing forwarded_for input) l).0) served,
        allowed-run max_failures window asked_at calls (of_account ∷ of_address ∷ []) positive
            order,
        full,
      ) in
      rw over (refl, refl)

  -- An unknown or disabled account and a wrong password get the same reply, and each counts as a failed
  -- attempt of the account and of the caller's address.
  pub sign_in_password-mismatch :
      asked.0 ≡ true
      → ((u : User)
          → account ≡ some u
          → verify_password crates u.password_hash input.password ≡ false)
      → reply ≡ (
        err (mismatch crates casing),
        record w { limiter = record_failure failed_at (of_account ∷ of_address ∷ []) asked.1 },
      )
  unfolding sign_in_password settle
  sign_in_password-mismatch under wrong = elim (Option-cases account) [
    | inl missing ↦ rw (under, missing) (settle-none _ _)
    | inr (u, found) ↦ rw (under, found, wrong u found) refl
  ]

  -- A sign-in succeeds only while neither the account nor the caller is locked out, for an account that
  -- is not disabled, with a password that its hash verifies. It answers with the cookie of a new session of
  -- that account, which is stored with the method `pwd`, the time of the sign-in and an expiry 7 days later,
  -- and with a view that names the account, the method and the time.
  pub sign_in_password-ok :
      (w' : World) (answer : Jar × SessionView)
      → reply ≡ (ok answer, w')
      → (asked.0 ≡ true)
        × ((user : User) × (account ≡ some user)
            × (verify_password crates user.password_hash input.password ≡ true)
            × SignedIn user answer w')
  unfolding sign_in_password settle
  sign_in_password-ok w' answer e = elim (Option-cases account) [
    | inl missing ↦ ground (
      arith,
      missing,
      settle-none (verify_password crates dummy_hash input.password)
          (record w { limiter = asked.1 }),
    )
    | inr (u, found) ↦ (
      ground (arith, found),
      (
        u,
        found,
        ground (arith, found),
        ground (arith, found, settle-SignedIn u (record w { limiter = asked.1 }) w' answer),
      ),
    )
  ]
