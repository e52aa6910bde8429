-- ===== src/Signup/Tests.antt =====
-- A sign-up at the small service.
use drone_dispatch.Account.{Casing, valid_email, SignUpDraw, is_weak}
use drone_dispatch.Api.{World, too_many_attempts}
use drone_dispatch.Clock.{Clock, seconds}
use drone_dispatch.Common.{
  ◌≡◌, none, some, true, false, refl, arith, [], ◌∷◌, List, All, is_some, ◌<◌, ◌⊎◌, ◌==◌,
}
use drone_dispatch.Common.Exec.{ok, err}
use drone_dispatch.Common.Table.{find}
use drone_dispatch.Crypto.{hashes_match, hash_token, hash_password}
use drone_dispatch.Db.{SignupChallenge, User}
use drone_dispatch.Oauth.Fixture.{plain, clock}
use drone_dispatch.Session.{SessionView}
use drone_dispatch.Session.Fixture.{world, empty_db}
use drone_dispatch.Signup.{verify, finalize, is_verified_challenge}
use drone_dispatch.Signup.Challenge.{IsWrong, guess_all, five_wrong_codes}
use drone_dispatch.Signup.Finalize.{finalize-ok}
use drone_dispatch.Text.{text, Text, trim}
use drone_dispatch.Text.Keyed.{by}

abbrev casing : Casing
casing = record { to_lowercase = λ t. t; sql_lower = λ t. t }

abbrev challenge : SignupChallenge
challenge = record {
  id_hash = text "q";
  email_hash = text "j@o.x";
  otp_hash = text "123456";
  expires_at = seconds 500;
  attempts = 0;
  verified_at = none;
  last_sent_at = seconds 50;
}

abbrev challenge_world : World
challenge_world = record world { db = record empty_db { signup_challenges = challenge ∷ [] } }

abbrev verified_world : World
verified_world = record world {
  db = record empty_db {
    signup_challenges = record challenge { verified_at = some (seconds 99) } ∷ [];
  };
}

abbrev verified_now : World
verified_now = record world {
  db = record empty_db {
    signup_challenges = record challenge { verified_at = some (seconds 100) } ∷ [];
  };
}

verify_is_ok :
    verify plain casing clock (text "q") (text "j@o.x") (text "123456") challenge_world
    ≡ (ok true, verified_now)
unfolding verify valid_email drone_dispatch.Text.split_once trim drone_dispatch.Text.byte_len find
    drone_dispatch.Text.same hash_token hashes_match drone_dispatch.Common.Table.update
verify_is_ok = refl

abbrev wrong_guesses : List (Clock × Text)
wrong_guesses =
    (clock, text "1")
    ∷ (clock, text "2")
    ∷ (clock, text "3")
    ∷ (clock, text "4")
    ∷ (clock, text "5")
    ∷ []

All-IsWrong :
    All
      (IsWrong plain casing (text "q") (text "j@o.x") (text "j@o.x") (text "123456") (seconds 500))
      wrong_guesses
unfolding hashes_match drone_dispatch.Text.byte_len hash_token trim
All-IsWrong = ((refl, soon), ((refl, soon), ((refl, soon), ((refl, soon), ((refl, soon), tt)))))
  where
    soon : seconds 100 < seconds 500
    soon = omega arith

five_wrong_codes_example :
    verify plain casing clock (text "q") (text "j@o.x") (text "123456") (
      guess_all plain casing (text "q") (text "j@o.x") (text "j@o.x") wrong_guesses challenge_world)
    ≡ (
      err too_many_attempts,
      guess_all plain casing (text "q") (text "j@o.x") (text "j@o.x") wrong_guesses challenge_world,
    )
unfolding valid_email drone_dispatch.Text.split_once trim drone_dispatch.Text.byte_len find
    drone_dispatch.Text.same hash_token
five_wrong_codes_example =
    five_wrong_codes plain casing (text "q") (text "j@o.x") (text "j@o.x") wrong_guesses challenge
      clock (text "123456") challenge_world refl refl refl All-IsWrong (omega arith) (omega arith)

abbrev sign_up_draw : SignUpDraw plain casing
sign_up_draw = record {
  user_id = 8;
  salt = [];
  session = record { token = text "n"; csrf = text "x" };
}

abbrev after_finalize : World
after_finalize =
    (finalize plain casing clock sign_up_draw none (text "q") (text "j@o.x") (text "long password")
      verified_world).1

abbrev new_view : SessionView
new_view = record {
  sub = 8;
  email = text "j@o.x";
  amr = text "pwd" ∷ [];
  auth_time = seconds 100;
  second_factor_pending = false;
  factors = record { passkeys = 0 };
}

finalize_is_ok :
    finalize plain casing clock sign_up_draw none
      (text "q")
      (text "j@o.x")
      (text "long password")
      verified_world
    ≡ (ok (some (text "n"), new_view), after_finalize)
unfolding finalize valid_email drone_dispatch.Text.split_once trim drone_dispatch.Text.byte_len find
    drone_dispatch.Text.same hash_token hash_password drone_dispatch.Common.Table.insert
    drone_dispatch.Session.start drone_dispatch.Session.view drone_dispatch.Common.Table.count
finalize_is_ok = refl

finalize-ok_example :
    ((c : SignupChallenge) × (find
          (is_verified_challenge plain casing clock (text "q") (text "j@o.x"))
          verified_world.db.signup_challenges
        ≡ some c)
      × (c.id_hash ≡ hash_token plain (text "q"))
      × (clock.db_now < c.expires_at)
      × (is_some c.verified_at ≡ true))
    × (is_weak (text "long password") ≡ false)
    × ((user : User) × (find (λ u. u.id == 8) after_finalize.db.users ≡ some user)
        × (user.email ≡ text "j@o.x")
        × (user.email_verified_at ≡ some (seconds 100))
        × (hash_password plain [] (text "long password") ≡ some user.password_hash))
    × (find (by (λ c. c.id_hash) (hash_token plain (text "q"))) after_finalize.db.signup_challenges
        ≡ none)
unfolding valid_email drone_dispatch.Text.split_once trim drone_dispatch.Text.byte_len
finalize-ok_example =
    finalize-ok plain casing clock sign_up_draw none (text "q") (text "j@o.x")
      (text "long password") (text "j@o.x") verified_world after_finalize
      (some (text "n"), new_view) refl finalize_is_ok
