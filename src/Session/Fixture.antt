-- ===== src/Session/Fixture.antt =====
-- A small service: one user, who may have a session, and one client.
use drone_dispatch.Api.{World}
use drone_dispatch.Clock.{seconds}
use drone_dispatch.Common.{none, [], ◌∷◌}
use drone_dispatch.Db.{User, Db, SessionRow}
use drone_dispatch.Limits.{Limiter}
use drone_dispatch.Oauth.Fixture.{fresh_db}
use drone_dispatch.Session.{Session}
use drone_dispatch.Text.{text}

abbrev pub user : User
user = record {
  id = 7;
  email = text "a@b.c";
  password_hash = text "pw";
  email_verified_at = none;
  disabled_at = none;
  created_at = 0;
}

abbrev pub empty_db : Db
empty_db = record fresh_db { users = user ∷ []; grants = []; auth_codes = []; refresh_tokens = [] }

abbrev pub limiter : Limiter
limiter = record { max_failures = 10; window = 900000000000; failures = [] }

abbrev pub world : World
world = record { db = empty_db; limiter = limiter; mails = [] }

abbrev pub pwd_session : Session
pwd_session = record {
  id_hash = text "s";
  user_id = 7;
  email = text "a@b.c";
  amr = text "pwd" ∷ [];
  auth_time = seconds 90;
}

abbrev pub pwd_row : SessionRow
pwd_row = record {
  id_hash = text "s";
  user_id = 7;
  csrf_token_hash = text "x";
  auth_time = seconds 90;
  amr = text "pwd" ∷ [];
  expires_at = seconds 900;
}

abbrev pub signed_in_world : World
signed_in_world = record world { db = record empty_db { sessions = pwd_row ∷ [] } }
