-- ===== src/Account/Tests.antt =====
-- Password sign-in at the small service: a@b.c with the password pw.
use drone_dispatch.Account.{
  Casing, Credentials, sign_in_password, keys_of, is_enabled_account, client_ip, mismatch,
}
use drone_dispatch.Account.SignIn.{
  SignedIn, sign_in_password-ok, sign_in_password-locked, sign_in_password-mismatch,
}
use drone_dispatch.Api.{World, too_many_attempts}
use drone_dispatch.Clock.{seconds}
use drone_dispatch.Common.{◌≡◌, ◌≤◌, List, inl, none, some, true, false, refl, arith, ◌∷◌, []}
use drone_dispatch.Common.Exec.{ok, err}
use drone_dispatch.Common.Table.{find}
use drone_dispatch.Crypto.{verify_password}
use drone_dispatch.Db.{User}
use drone_dispatch.Limits.{allowed, record_failure, new}
use drone_dispatch.Limits.Log.{Call, failed, run, log_run}
use drone_dispatch.Limits.Lockout.{empty_log}
use drone_dispatch.Limits.Window.{recent}
use drone_dispatch.Oauth.Fixture.{plain, clock}
use drone_dispatch.Session.{SessionDraw, SessionView}
use drone_dispatch.Session.Fixture.{world, limiter}
use drone_dispatch.Text.{text, same, bytes, trim, is_whitespace}

abbrev casing : Casing
casing = record { to_lowercase = λ t. t; sql_lower = λ t. t }

abbrev right : Credentials
right = record { email = text "a@b.c"; password = text "pw" }

abbrev wrong : Credentials
wrong = record right { password = text "no" }

abbrev session_draw : SessionDraw
session_draw = record { token = text "n"; csrf = text "x" }

abbrev calls : List Call
calls = failed 5 (text "password:a@b.c" ∷ []) ∷ []

abbrev locked_world : World
locked_world = record world { limiter = run (new 1 900) calls }

full : 1 ≤ recent 900 10 (log_run empty_log calls (text "password:a@b.c"))
unfolding same log_run recent
full = omega (arith, counted)
  where
    counted : recent 900 10 (log_run empty_log calls (text "password:a@b.c")) ≡ 1
    counted = refl

-- The right password, after one failure of the account.
sign_in_password-locked_example :
    ((sign_in_password plain casing
        (text "d")
        clock
        10
        11
        session_draw
        none
        none
        right
        locked_world).0
      ≡ err too_many_attempts)
    × ((sign_in_password plain casing
          (text "d")
          clock
          10
          11
          session_draw
          none
          none
          right
          locked_world).1.db
        ≡ locked_world.db)
unfolding trim
sign_in_password-locked_example =
    sign_in_password-locked plain casing (text "d") clock 10 11 session_draw none none right
      locked_world 1 900 calls (omega arith) refl (omega arith) (inl full)

wrong_password :
    (u : User)
    → find (is_enabled_account plain casing wrong) world.db.users ≡ some u
    → verify_password plain u.password_hash (text "no") ≡ false
unfolding verify_password bytes find same trim is_whitespace
wrong_password u e = ground arith

sign_in_password-mismatch_example :
    sign_in_password plain casing (text "d") clock 10 11 session_draw none none wrong world ≡ (
      err (mismatch plain casing),
      record world {
        limiter =
            record_failure 11 (text "password:a@b.c" ∷ text "password-ip:unknown" ∷ []) limiter;
      },
    )
unfolding allowed find same trim is_whitespace client_ip
sign_in_password-mismatch_example =
    sign_in_password-mismatch plain casing (text "d") clock 10 11 session_draw none none wrong world
      refl wrong_password

abbrev after_sign_in : World
after_sign_in =
    (sign_in_password plain casing (text "d") clock 10 11 session_draw none none right world).1

abbrev signed_in_view : SessionView
signed_in_view = record {
  sub = 7;
  email = text "a@b.c";
  amr = text "pwd" ∷ [];
  auth_time = seconds 100;
  second_factor_pending = false;
  factors = record { passkeys = 0 };
}

sign_in_is_ok :
    sign_in_password plain casing (text "d") clock 10 11 session_draw none none right world
    ≡ (ok (some (text "n"), signed_in_view), after_sign_in)
unfolding sign_in_password allowed find verify_password same trim bytes drone_dispatch.Session.start
    drone_dispatch.Common.Table.insert drone_dispatch.Session.view drone_dispatch.Common.Table.count
sign_in_is_ok = refl

sign_in_password-ok_example :
    ((allowed 10 (keys_of plain casing none right) limiter).0 ≡ true)
    × ((user : User) × (find (is_enabled_account plain casing right) world.db.users ≡ some user)
        × (verify_password plain user.password_hash (text "pw") ≡ true)
        × SignedIn plain casing
            (text "d")
            clock
            10
            11
            session_draw
            none
            none
            right
            world
            user
            (some (text "n"), signed_in_view)
            after_sign_in)
sign_in_password-ok_example =
    sign_in_password-ok plain casing (text "d") clock 10 11 session_draw none none right world
      after_sign_in (some (text "n"), signed_in_view) sign_in_is_ok
