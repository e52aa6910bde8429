-- ===== src/Session/Tests.antt =====
-- Sessions of the small service.
use drone_dispatch.Api.{World}
use drone_dispatch.Clock.{seconds}
use drone_dispatch.Common.{◌≡◌, none, some, true, false, refl, arith, ◌∷◌, [], ◌⊎◌}
use drone_dispatch.Common.Exec.{ok}
use drone_dispatch.Common.Table.{find, count}
use drone_dispatch.Crypto.{hash_token}
use drone_dispatch.Oauth.Fixture.{plain, clock}
use drone_dispatch.Session.{
  load, SessionDraw, Session, start, require, add_method, session_of, has_second_factor,
  second_factor, factors,
}
use drone_dispatch.Session.Fixture.{signed_in_world, pwd_session}
use drone_dispatch.Text.{text, bytes, same, contains}

abbrev session_draw : SessionDraw
session_draw = record { token = text "n"; csrf = text "x" }

abbrev started : Session
started = record pwd_session { id_hash = text "n"; auth_time = seconds 100 }

abbrev after_start : World
after_start =
    (start plain clock session_draw (some (text "s")) 7 (text "pwd" ∷ []) signed_in_world).1

start_is_ok :
    start plain clock session_draw (some (text "s")) 7 (text "pwd" ∷ []) signed_in_world
    ≡ (ok (some (text "n"), started), after_start)
unfolding start hash_token bytes find drone_dispatch.Common.Table.insert
    drone_dispatch.Common.Table.delete same
start_is_ok = refl

session_is_loaded : load plain signed_in_world.db clock (some (text "s")) ≡ some pwd_session
unfolding load session_of hash_token bytes find same
session_is_loaded = refl

require_is_ok :
    require plain clock (some (text "s")) false signed_in_world ≡ (ok pwd_session, signed_in_world)
unfolding require load session_of hash_token bytes find same factors count has_second_factor
require_is_ok = refl

abbrev stepped_up : Session
stepped_up = record pwd_session { amr = text "pwd" ∷ text "hwk" ∷ []; auth_time = seconds 100 }

abbrev after_step_up : World
after_step_up = (add_method clock pwd_session second_factor signed_in_world).1

add_method_is_ok :
    add_method clock pwd_session second_factor signed_in_world ≡ (ok stepped_up, after_step_up)
unfolding add_method find same contains
add_method_is_ok = refl
