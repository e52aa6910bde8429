-- ===== src/Signup/Finalize.antt =====
-- `finalize`: an account is made of a verified challenge, which is then gone.
use drone_dispatch.Session
use drone_dispatch.Account.{Casing, insert_user, SignUpDraw, has_email, is_weak}
use drone_dispatch.Api.{World}
use drone_dispatch.Clock.{Clock}
use drone_dispatch.Common.{
  ◌≡◌, none, some, true, false, refl, arith, List, [], ◌∷◌, ℕ, ◌==◌, Option-cases, ◌||◌, inr, inl,
  ap, sym, is_some, ◌∙◌, ◌<◌,
}
use drone_dispatch.Common.Exec.{ok, ◌>>=◌, gets, pure}
use drone_dispatch.Common.Exec.Inversion.{bind-eq-ok}
use drone_dispatch.Common.Table.{find, insert, find-delete, find_none, find-append, find_sound}
use drone_dispatch.Crypto.{Primitives, hash_token, hash_password}
use drone_dispatch.Db.{User, SignupChallenge, Db}
use drone_dispatch.Session.{SessionDraw, Jar, SessionView, view}
use drone_dispatch.Signup.{
  store_user, create_account, new_user, finalize, normalize_email, is_verified_challenge,
}
use drone_dispatch.Signup.Challenge.{normalized}
use drone_dispatch.Text.{Text, text}
use drone_dispatch.Text.Keyed.{by}
use drone_dispatch.Text.Equality.{same_iff}

module _ (crates : Primitives) (casing : Casing) where
  start-accounts :
      (clock : Clock) (draw : SessionDraw) (jar : Jar) (user_id : ℕ) (amr : List Text) (w : World)
      → ((Session.start crates clock draw jar user_id amr w).1.db.users ≡ w.db.users)
        × ((Session.start crates clock draw jar user_id amr w).1.db.signup_challenges
            ≡ w.db.signup_challenges)
  unfolding Session.start Session.end
  start-accounts clock draw none user_id amr w = ground arith
  start-accounts clock draw (some old) user_id amr w = ground arith

  -- What `store_user` leaves.
  record Made (challenge_id : Text) (user : User) (db' : Db) : Type 0 where
    has_user : find (λ u. u.id == user.id) db'.users ≡ some user
    challenge_gone :
        find (by (λ c. c.id_hash) (hash_token crates challenge_id)) db'.signup_challenges ≡ none

  store_user-Made :
      (challenge_id : Text) (user : User) (db db' : Db)
      → store_user crates casing challenge_id user db ≡ some db'
      → Made challenge_id user db'
  unfolding store_user insert_user insert
  store_user-Made challenge_id user db db' e =
      elim (Option-cases (
        find (λ u. u.id == user.id || has_email casing (casing.sql_lower user.email) u) db.users)) [
          | inr (u, taken) ↦ ground (arith, taken)
          | inl new ↦ record {
            has_user =
                let unused =
                  find_none
                    (λ (u : User).
                      u.id == user.id || has_email casing (casing.sql_lower user.email) u)
                    (λ u. u.id == user.id) db.users (λ u h. ground (arith, h)) new in
                ground
                  (arith, new, unused, find-append (λ (u : User). u.id == user.id) db.users user);
            challenge_gone = ground (
              arith,
              new,
              find-delete (by (λ (c : SignupChallenge). c.id_hash) (hash_token crates challenge_id))
                  db.signup_challenges,
            );
          }
        ]

  start-view :
      (clock : Clock) (draw : SessionDraw) (jar : Jar) (user_id : ℕ) (v w' : World)
      (answer : Jar × SessionView)
      → (Session.start crates clock draw jar user_id (text "pwd" ∷ []) >>= λ r.
            gets (λ w. view w.db r.1) >>= λ shown. pure (r.0, shown))
          v
        ≡ (ok answer, w')
      → (Session.start crates clock draw jar user_id (text "pwd" ∷ []) v).1 ≡ w'
  start-view clock draw jar user_id v w' answer e =
      let (started, known, rest) =
        bind-eq-ok (Session.start crates clock draw jar user_id (text "pwd" ∷ [])) _ v e in
      ap (λ p. p.1) rest

  create_account-Made :
      (clock : Clock) (draw : SignUpDraw crates casing) (jar : Jar)
      (challenge_id email password_hash : Text) (w w' : World) (answer : Jar × SessionView)
      → create_account crates casing clock draw jar challenge_id email password_hash w
        ≡ (ok answer, w')
      → Made challenge_id (new_user crates casing clock draw.user_id email password_hash) w'.db
  unfolding create_account
  create_account-Made clock draw jar challenge_id email password_hash w w' answer e =
      let user = new_user crates casing clock draw.user_id email password_hash in
      elim (Option-cases (store_user crates casing challenge_id user w.db)) [
        | inl refused ↦ ground (arith, refused)
        | inr (db, stored) ↦
            let made = store_user-Made challenge_id user w.db db stored in
            let v = record w { db = db } in
            let kept = start-accounts clock draw.session jar draw.user_id (text "pwd" ∷ []) v in
            let end : (Session.start crates clock draw.session jar draw.user_id (text "pwd" ∷ [])
                  v).1
                ≡ w' =
              start-view clock draw.session jar draw.user_id v w' answer (ground (arith, stored)) in
            record {
              has_user =
                  ap (λ x. find (λ (u : User). u.id == user.id) x.db.users) (sym end)
                  ∙ ap (find (λ (u : User). u.id == user.id)) kept.0
                  ∙ made.has_user;
              challenge_gone =
                  ap
                    (λ x.
                      find
                        (by (λ (c : SignupChallenge). c.id_hash) (hash_token crates challenge_id))
                        x.db.signup_challenges)
                    (sym end)
                  ∙ ap
                      (find
                        (by (λ (c : SignupChallenge). c.id_hash) (hash_token crates challenge_id)))
                      kept.1
                  ∙ made.challenge_gone;
            }
      ]

  verified_challenge :
      (clock : Clock) (challenge_id email : Text) (t : List SignupChallenge)
      → is_some (find (is_verified_challenge crates casing clock challenge_id email) t) ≡ true
      → (c : SignupChallenge) × (find
            (is_verified_challenge crates casing clock challenge_id email)
            t
          ≡ some c)
        × (c.id_hash ≡ hash_token crates challenge_id)
        × (clock.db_now < c.expires_at)
        × (is_some c.verified_at ≡ true)
  verified_challenge clock challenge_id email t e =
      let verified = is_verified_challenge crates casing clock challenge_id email in
      elim (Option-cases (find verified t)) [
        | inl missing ↦ absurd (ground (arith, missing))
        | inr (c, found) ↦
            let sound = find_sound verified t found in
            (
              c,
              found,
              ground (arith, sound, same_iff c.id_hash (hash_token crates challenge_id)),
              ground (arith, sound),
              ground (arith, sound),
            )
      ]

  -- `finalize` makes an account only of an address whose challenge is verified and not expired, with a
  -- password that is not weak; the account's address is verified, and the challenge is gone.
  pub finalize-ok :
      (clock : Clock) (draw : SignUpDraw crates casing) (jar : Jar)
      (challenge_id given password email : Text) (w w' : World) (answer : Jar × SessionView)
      → normalized crates casing given ≡ some email
      → finalize crates casing clock draw jar challenge_id given password w ≡ (ok answer, w')
      → ((c : SignupChallenge) × (find
              (is_verified_challenge crates casing clock challenge_id email)
              w.db.signup_challenges
            ≡ some c)
          × (c.id_hash ≡ hash_token crates challenge_id)
          × (clock.db_now < c.expires_at)
          × (is_some c.verified_at ≡ true))
        × (is_weak password ≡ false)
        × ((user : User) × (find (λ u. u.id == draw.user_id) w'.db.users ≡ some user)
            × (user.email ≡ email)
            × (user.email_verified_at ≡ some clock.db_now)
            × (hash_password crates draw.salt password ≡ some user.password_hash))
        × (find (by (λ c. c.id_hash) (hash_token crates challenge_id)) w'.db.signup_challenges
            ≡ none)
  unfolding finalize normalize_email
  finalize-ok clock draw jar challenge_id given password email w w' answer typed e =
      elim (Option-cases (hash_password crates draw.salt password)) [
        | inl failed ↦ ground (arith, typed, failed)
        | inr (hash, hashed) ↦
            let made =
              create_account-Made clock draw jar challenge_id email hash w w' answer
                (ground (arith, typed, hashed)) in
            (
              verified_challenge clock challenge_id email w.db.signup_challenges
                  (ground (arith, typed, hashed)),
              ground (arith, typed, hashed),
              (
                new_user crates casing clock draw.user_id email hash,
                made.has_user,
                refl,
                refl,
                hashed,
              ),
              made.challenge_gone,
            )
      ]
