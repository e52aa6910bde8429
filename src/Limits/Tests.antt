-- ===== src/Limits/Tests.antt =====
-- The limiter at concrete calls.
use drone_dispatch.Common.{◌≡◌, refl, true, false, List, [], ◌∷◌, arith, all}
use drone_dispatch.Common.Table.{find, update}
use drone_dispatch.Limits.{new, allowed, record_failure}
use drone_dispatch.Limits.Lockout.{empty_log, is_under, allowed-run}
use drone_dispatch.Limits.Log.{Call, check, failed, run, log_run}
use drone_dispatch.Text.{Text, text, same}

abbrev both : List Text
both = text "a" ∷ text "ip" ∷ []

abbrev two_failures : List Call
two_failures = failed 10 both ∷ check 15 both ∷ failed 20 both ∷ []

allowed-run_example :
    (allowed 30 both (run (new 2 60) two_failures)).0
    ≡ all (is_under 2 60 30 (log_run empty_log two_failures)) both
allowed-run_example = allowed-run 2 60 30 two_failures both (omega arith) (omega arith)

blocked : (allowed 30 both (run (new 2 60) two_failures)).0 ≡ false
unfolding run allowed record_failure new find update same
blocked = refl

expired : (allowed 81 both (run (new 2 60) two_failures)).0 ≡ true
unfolding run allowed record_failure new find update same
expired = refl
