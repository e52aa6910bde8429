-- ===== src/Limits/Log.antt =====
-- A log of failures that is never pruned, which the limiter of services/auth-service/src/limits.rs refines.
use drone_dispatch.Common.{ℕ, ◌≤◌, ◌≡◌, List, [], ◌∷◌, ◌++◌, if◌then◌else◌, All}
use drone_dispatch.Limits.{Limiter, allowed, record_failure, clear}
use drone_dispatch.Limits.Window.{history, recent, Ascending}
use drone_dispatch.Text.{Text, same}

pub data Call : Type 0 where
  check : ℕ → List Text → Call
  failed : ℕ → List Text → Call
  cleared : Text → Call

unfoldable pub step : Limiter → Call → Limiter
step l (check now keys) = (allowed now keys l).1
step l (failed now keys) = record_failure now keys l
step l (cleared key) = clear key l

unfoldable pub run : Limiter → List Call → Limiter
unfolding step
run l [] = l
run l (c ∷ cs) = run (step l c) cs

-- The specification's state: every failure of a key since the key was last cleared.
abbrev pub Log : Type 0
Log = Text → List ℕ

unfoldable pub log_failure : ℕ → List Text → Log → Log
log_failure now [] log = log
log_failure now (key ∷ keys) log =
    log_failure now keys (λ j. if same key j then log j ++ now ∷ [] else log j)

unfoldable pub log_step : Log → Call → Log
unfolding log_failure
log_step log (check now keys) = log
log_step log (failed now keys) = log_failure now keys log
log_step log (cleared key) = λ j. if same key j then [] else log j

unfoldable pub log_run : Log → List Call → Log
unfolding log_step
log_run log [] = log
log_run log (c ∷ cs) = log_run (log_step log c) cs

-- The calls read a clock that never goes back, from `start` up to `end`.
abbrev pub InOrder : ℕ → List Call → ℕ → Type 0
InOrder start [] end = start ≤ end
InOrder start (check now keys ∷ cs) end = (start ≤ now) × InOrder now cs end
InOrder start (failed now keys ∷ cs) end = (start ≤ now) × InOrder now cs end
InOrder start (cleared key ∷ cs) end = InOrder start cs end

-- The limiter at time `now` stands for the log: its instants are in order, none is later, and at any
-- later time as many of them lie inside the window as of the log's.
pub record Refines (window now : ℕ) (l : Limiter) (log : Log) : Type 0 where
  pub same_window : l.window ≡ window
  pub ordered : (j : Text) → Ascending (history l j)
  pub past : (j : Text) → All (λ t. t ≤ now) (history l j)
  pub counts :
      (j : Text) (later : ℕ)
      → now ≤ later
      → recent window later (history l j) ≡ recent window later (log j)
