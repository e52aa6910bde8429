-- ===== src/Passkeys/Tests.antt =====
-- Ceremonies at the small service, with a webauthn that accepts every credential.
use drone_dispatch.Api.{World}
use drone_dispatch.Clock.{seconds}
use drone_dispatch.Common.{
  ◌≡◌, none, some, true, false, refl, arith, [], ◌∷◌, ℕ, is_some, ◌==◌, ◌&&◌, any, ◌<◌, ◌+◌,
}
use drone_dispatch.Common.Exec.{ok, err}
use drone_dispatch.Common.Table.{find, delete}
use drone_dispatch.Db.{WebauthnChallenge, PasskeyRow}
use drone_dispatch.Limits.{allowed}
use drone_dispatch.Oauth.Fixture.{plain, clock}
use drone_dispatch.Passkeys.{
  Webauthn, take_challenge, remove, authentication, is_takeable, challenge_expired, owns,
}
use drone_dispatch.Passkeys.SignIn.{keys_of, verify_second_factor}
use drone_dispatch.Passkeys.Ceremony.{take_challenge-once, verify_second_factor-ok, remove-ok}
use drone_dispatch.Session.{
  load, Jar, Session, SessionView, has_fresh_second_factor, fresh_mfa_secs,
}
use drone_dispatch.Session.Fixture.{signed_in_world, pwd_row}
use drone_dispatch.Text.{text, Text, same}
use drone_dispatch.Crypto.{hash_token}

abbrev accepting : Webauthn
accepting = record {
  start_registration = λ id email existing. none;
  finish_registration = λ credential ceremony. some credential;
  start_discoverable = none;
  identify = λ credential. some 7;
  finish_discoverable = λ credential ceremony keys. some credential;
  start_authentication = λ keys. none;
  finish_authentication = λ credential ceremony. some credential;
  passkey_id = λ p. p;
  result_id = λ r. r;
  update_credential = λ p r. p;
}

abbrev challenge : WebauthnChallenge
challenge = record {
  id_hash = text "h";
  user_id = some 7;
  kind = authentication;
  state = text "st";
  expires_at = seconds 300;
}

abbrev key : PasskeyRow
key = record {
  id = 4;
  user_id = 7;
  credential_id = text "k";
  passkey = text "k";
  name = text "Key";
  created_at = 0;
  last_used_at = none;
}

abbrev other_key : PasskeyRow
other_key = record key { id = 5; user_id = 6; credential_id = text "o"; passkey = text "o" }

abbrev challenge_world : World
challenge_world = record signed_in_world {
  db = record signed_in_world.db {
    webauthn_challenges = challenge ∷ [];
    passkeys = key ∷ other_key ∷ [];
  };
}

abbrev strong_world : World
strong_world = record challenge_world {
  db = record challenge_world.db {
    sessions = record pwd_row { amr = text "pwd" ∷ text "hwk" ∷ [] } ∷ [];
  };
}

abbrev cookie : Jar
cookie = some (text "s")

take_challenge-once_example :
    (take_challenge plain clock
      (text "h")
      authentication
      (take_challenge plain clock (text "h") authentication challenge_world).1).0
    ≡ err challenge_expired
take_challenge-once_example =
    take_challenge-once plain clock clock (text "h") authentication challenge_world (omega arith)

abbrev after_remove : World
after_remove = (remove accepting plain clock cookie 4 strong_world).1

remove_is_ok : remove accepting plain clock cookie 4 strong_world ≡ (ok tt, after_remove)
unfolding remove drone_dispatch.Session.require find drone_dispatch.Text.same
    drone_dispatch.Crypto.hash_token drone_dispatch.Text.bytes has_fresh_second_factor
    drone_dispatch.Clock.whole_seconds
remove_is_ok = refl

remove-ok_example :
    (session : Session) × (load plain strong_world.db clock cookie ≡ some session)
    × (has_fresh_second_factor clock fresh_mfa_secs session ≡ true)
    × (any (λ m. same m (text "hwk")) session.amr ≡ true)
    × (clock.utc_now < session.auth_time + seconds 301)
    × (is_some (find (λ p. p.id == 4 && owns session.user_id p) strong_world.db.passkeys) ≡ true)
    × (after_remove.db.passkeys
        ≡ delete (λ p. p.id == 4 && owns session.user_id p) strong_world.db.passkeys)
remove-ok_example =
    remove-ok accepting plain clock cookie 4 strong_world after_remove tt remove_is_ok

abbrev user_key : ℕ → Text
user_key n = text "u"

abbrev after_verify : World
after_verify =
    (verify_second_factor accepting plain user_key clock 10 11 none cookie (text "h") (text "k")
      challenge_world).1

abbrev verified_view : SessionView
verified_view = record {
  sub = 7;
  email = text "a@b.c";
  amr = text "pwd" ∷ text "hwk" ∷ [];
  auth_time = seconds 100;
  second_factor_pending = false;
  factors = record { passkeys = 1 };
}

verify_is_ok :
    verify_second_factor accepting plain user_key clock 10 11 none cookie
      (text "h")
      (text "k")
      challenge_world
    ≡ (ok verified_view, after_verify)
unfolding verify_second_factor drone_dispatch.Session.require find drone_dispatch.Text.same
    drone_dispatch.Crypto.hash_token drone_dispatch.Text.bytes allowed
    drone_dispatch.Passkeys.user_passkeys drone_dispatch.Common.Table.select
    drone_dispatch.Session.add_method drone_dispatch.Session.view drone_dispatch.Text.contains
    drone_dispatch.Common.Table.count drone_dispatch.Common.Table.update
verify_is_ok = refl

verify_second_factor-ok_example :
    (session : Session) × (row : WebauthnChallenge) × (load plain challenge_world.db clock cookie
      ≡ some session)
    × ((allowed 10 (keys_of accepting plain user_key none session) challenge_world.limiter).0
        ≡ true)
    × (find
          (is_takeable plain clock (text "h") authentication)
          challenge_world.db.webauthn_challenges
        ≡ some row)
    × (row.id_hash ≡ hash_token plain (text "h"))
    × (row.kind ≡ authentication)
    × (clock.db_now < row.expires_at)
    × (row.user_id ≡ some session.user_id)
    × (is_some (accepting.finish_authentication (text "k") row.state) ≡ true)
verify_second_factor-ok_example =
    verify_second_factor-ok accepting plain user_key clock 10 11 none cookie (text "h") (text "k")
      challenge_world after_verify verified_view verify_is_ok
