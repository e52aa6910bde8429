-- ===== src/Api.antt =====
-- services/auth-service/src/error.rs (the errors of the JSON API) and the shared state of its handlers
-- (lib.rs, `AppState`).
use drone_dispatch.Common.{ℕ, Option, some, none, String, List}
use drone_dispatch.Common.Exec.{Exec, fail, pure}
use drone_dispatch.Db.{Db}
use drone_dispatch.Limits.{Limiter}
use drone_dispatch.Text.{Text}

pub record ApiError : Type 0 where
  pub status : ℕ
  pub title : String
  pub reason : Option String

abbrev pub bad_request : String → String → ApiError
bad_request title reason = record { status = 400; title = title; reason = some reason }

abbrev pub unauthorized : String → String → ApiError
unauthorized title reason = record { status = 401; title = title; reason = some reason }

abbrev pub not_signed_in : ApiError
not_signed_in = unauthorized "Sign in first" "NOT_SIGNED_IN"

abbrev pub forbidden : String → String → ApiError
forbidden title reason = record { status = 403; title = title; reason = some reason }

abbrev pub fresh_mfa_required : ApiError
fresh_mfa_required = forbidden "Confirm it's you with your second factor first" "FRESH_MFA_REQUIRED"

abbrev pub not_found : String → ApiError
not_found title = record { status = 404; title = title; reason = none }

abbrev pub conflict : String → String → ApiError
conflict title reason = record { status = 409; title = title; reason = some reason }

abbrev pub too_many_attempts : ApiError
too_many_attempts = record {
  status = 429;
  title = "Too many attempts. Try again in a few minutes.";
  reason = some "TOO_MANY_ATTEMPTS";
}

-- The cause goes to the log and is not part of the reply.
abbrev pub internal : ApiError
internal = record { status = 500; title = "Something went wrong"; reason = none }

-- What the handlers share: the database, the limiter, and the mails handed to the mail server.
pub record World : Type 0 where
  pub db : Db
  pub limiter : Limiter
  pub mails : List (Text × Text)

abbrev pub Handler : Type 0 → Type 0
Handler A = Exec ApiError World A

-- An `INSERT`, with `error` where it is refused.
abbrev pub change_db : (Db → Option Db) → ApiError → Handler (Unit {0})
change_db f error w = elim (f w.db) [
  | none ↦ fail error w
  | some db ↦ pure tt (record w { db = db })
]

abbrev pub modify_db : (Db → Db) → Handler (Unit {0})
modify_db f w = pure tt (record w { db = f w.db })
