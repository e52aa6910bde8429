-- ===== src/Limits/Lockout.antt =====
-- The limiter answers as the log of failures says.
use mathlib.Core.Path.{subst}
use drone_dispatch.Common.{ℕ, ◌<◌, ◌≡◌, refl, ◌∙◌, Bool, List, [], ◌∷◌, arith, ltb, all}
use drone_dispatch.Common.Table.{find}
use drone_dispatch.Limits.{Limiter, new, allowed_key, allowed, push, record_failure, clear}
use drone_dispatch.Limits.Window.{history, recent, length-drop_expired}
use drone_dispatch.Text.{Text}
use drone_dispatch.Limits.Log.{Call, check, failed, cleared, run, Log, log_run, InOrder, Refines}
use drone_dispatch.Limits.Refinement.{allowed_key-Refines, run-Refines}

-- Fewer failures than the maximum lie inside the window.
abbrev pub is_under : ℕ → ℕ → ℕ → Log → Text → Bool
is_under max_failures window now log key = ltb (recent window now (log key)) max_failures

module _ (window : ℕ) where
  allowed_key-eq-is_under :
      (now : ℕ) (key : Text) (l : Limiter) (log : Log)
      → 0 < l.max_failures
      → Refines window now l log
      → (allowed_key now key l).0 ≡ is_under l.max_failures window now log key
  unfolding allowed_key
  allowed_key-eq-is_under now key l log h v = ground (
    arith,
    v.counts key now (omega arith),
    v.same_window,
    length-drop_expired window now (history l key) (v.ordered key),
  )

max-allowed_key :
    (now : ℕ) (key : Text) (l : Limiter) → (allowed_key now key l).1.max_failures ≡ l.max_failures
unfolding allowed_key
max-allowed_key now key l = ground arith

max-allowed :
    (now : ℕ) (keys : List Text) (l : Limiter)
    → (allowed now keys l).1.max_failures ≡ l.max_failures
unfolding allowed
max-allowed now [] l = refl
max-allowed now (key ∷ keys) l =
    ground (arith, max-allowed now keys (allowed_key now key l).1, max-allowed_key now key l)

max-record_failure :
    (now : ℕ) (keys : List Text) (l : Limiter)
    → (record_failure now keys l).max_failures ≡ l.max_failures
unfolding record_failure
max-record_failure now [] l = refl
max-record_failure now (key ∷ keys) l =
    max-record_failure now keys (record l { failures = push now key l.failures })

max-run : (cs : List Call) (l : Limiter) → (run l cs).max_failures ≡ l.max_failures
unfolding run
max-run [] l = refl
max-run (check now keys ∷ cs) l = max-run cs (allowed now keys l).1 ∙ max-allowed now keys l
max-run (failed now keys ∷ cs) l =
    max-run cs (record_failure now keys l) ∙ max-record_failure now keys l
max-run (cleared key ∷ cs) l = max-run cs (clear key l) ∙ unfold clear in refl

allowed-eq-all :
    (window now : ℕ) (keys : List Text) (l : Limiter) (log : Log)
    → 0 < l.max_failures
    → Refines window now l log
    → (allowed now keys l).0 ≡ all (is_under l.max_failures window now log) keys
unfolding allowed
allowed-eq-all window now [] l log h v = refl
allowed-eq-all window now (key ∷ keys) l log h v = ground (
  arith,
  allowed_key-eq-is_under window now key l log h v,
  max-allowed_key now key l,
  allowed-eq-all window now keys (allowed_key now key l).1 log (rw max-allowed_key h)
      (allowed_key-Refines window now now key l log (omega arith) v),
)

abbrev pub empty_log : Log
empty_log key = []

new-Refines : (max_failures window : ℕ) → Refines window 0 (new max_failures window) empty_log
unfolding new
new-Refines max_failures window = record {
  same_window = refl;
  ordered = λ j. unfold find in tt;
  past = λ j. unfold find in tt;
  counts = λ j later h. unfold find in refl;
}

-- After any calls whose clock readings do not go back, with a positive maximum, `allowed` answers
-- true exactly if for each of the keys fewer than the maximum of the failures recorded since the key
-- was last cleared lie inside the window, although the limiter prunes as it goes.
pub allowed-run :
    (max_failures window now : ℕ) (cs : List Call) (keys : List Text)
    → 0 < max_failures
    → InOrder 0 cs now
    → (allowed now keys (run (new max_failures window) cs)).0
      ≡ all (is_under max_failures window now (log_run empty_log cs)) keys
allowed-run max_failures window now cs keys h order =
    let l = run (new max_failures window) cs in
    let kept : l.max_failures ≡ max_failures =
      max-run cs (new max_failures window) ∙ unfold new in refl in
    subst (λ m. (allowed now keys l).0 ≡ all (is_under m window now (log_run empty_log cs)) keys)
      kept
      (allowed-eq-all window now keys l (log_run empty_log cs) (rw kept h) (
        run-Refines window 0 now cs (new max_failures window) empty_log order
          (new-Refines max_failures window)))
