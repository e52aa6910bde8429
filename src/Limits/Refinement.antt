-- ===== src/Limits/Refinement.antt =====
-- Every operation of the limiter keeps it in step with the log.
use drone_dispatch.Common.{
  ℕ, ◌≤◌, ◌≡◌, ◌∙◌, List, [], ◌∷◌, ◌++◌, arith, if◌then◌else◌, All, All-append, if_intro,
  Bool-cases, inl, inr,
}
use drone_dispatch.Limits.{Limiter, allowed_key, allowed, push, record_failure, clear}
use drone_dispatch.Limits.Window.{
  history, recent, Ascending, recent-drop_expired, Ascending-drop_expired, history-allowed_key,
  history-clear, history-push, recent-snoc, Ascending-snoc, All-le_later, All-drop_expired,
}
use drone_dispatch.Text.{Text, same}
use drone_dispatch.Limits.Log.{
  Call, check, failed, cleared, run, Log, log_failure, log_run, InOrder, Refines,
}

module _ (window start now : ℕ) (key : Text) (l : Limiter) (log : Log) where
  window-allowed_key : (allowed_key now key l).1.window ≡ l.window
  unfolding allowed_key
  window-allowed_key = ground arith

  pub allowed_key-Refines :
      start ≤ now → Refines window start l log → Refines window now (allowed_key now key l).1 log
  allowed_key-Refines h v = record {
    same_window = window-allowed_key ∙ v.same_window;
    ordered = λ j. rw (history-allowed_key now key j l) (
        if_intro Ascending (same key j) _ _
          (Ascending-drop_expired l.window now (history l j) (v.ordered j)) (v.ordered j));
    past = λ j. rw (history-allowed_key now key j l) (
        if_intro (All (λ t. t ≤ now)) (same key j) _ _
          (All-drop_expired now l.window now (history l j)
            (All-le_later start now (history l j) h (v.past j)))
          (All-le_later start now (history l j) h (v.past j)));
    counts = λ j later k. rw (history-allowed_key now key j l) (
        if_intro (λ ts. recent window later ts ≡ recent window later (log j)) (same key j) _ _
          (rw v.same_window
            (recent-drop_expired window now later (history l j) k ∙ v.counts j later (omega arith)))
          (v.counts j later (omega arith)));
  }

  push-Refines :
      start ≤ now
      → Refines window start l log
      → Refines window now
          (record l { failures = push now key l.failures })
          (λ j. if same key j then log j ++ now ∷ [] else log j)
  push-Refines h v = record {
    same_window = v.same_window;
    ordered = λ j. rw (history-push now key j l) (
        if_intro Ascending (same key j) _ _
          (Ascending-snoc now (history l j) (v.ordered j)
            (All-le_later start now (history l j) h (v.past j)))
          (v.ordered j));
    past = λ j.
        let before : All (λ t. t ≤ now) (history l j) =
          All-le_later start now (history l j) h (v.past j) in
        rw (history-push now key j l) (
          if_intro (All (λ t. t ≤ now)) (same key j) _ _
            (All-append (λ t. t ≤ now) (history l j) (now ∷ []) before (omega arith, tt)) before);
    counts = λ j later k. rw (history-push now key j l) (
        ground (
          arith,
          recent-snoc window later now (history l j),
          recent-snoc window later now (log j),
          v.counts j later (omega arith),
        ));
  }

  clear-Refines :
      Refines window start l log
      → Refines window start (clear key l) (λ j. if same key j then [] else log j)
  clear-Refines v = record {
    same_window = unfold clear in v.same_window;
    ordered =
        λ j. rw (history-clear key j l) (if_intro Ascending (same key j) _ _ tt (v.ordered j));
    past = λ j.
        rw (history-clear key j l) (if_intro (All (λ t. t ≤ start)) (same key j) _ _ tt (v.past j));
    counts = λ j later k. rw (history-clear key j l) (ground (arith, v.counts j later k));
  }

module _ (window : ℕ) where
  later-Refines :
      (start now : ℕ) (l : Limiter) (log : Log)
      → start ≤ now
      → Refines window start l log
      → Refines window now l log
  later-Refines start now l log h v = record {
    same_window = v.same_window;
    ordered = v.ordered;
    past = λ j. All-le_later start now (history l j) h (v.past j);
    counts = λ j later k. v.counts j later (omega arith);
  }

  allowed-Refines :
      (start now : ℕ) (keys : List Text) (l : Limiter) (log : Log)
      → start ≤ now
      → Refines window start l log
      → Refines window now (allowed now keys l).1 log
  unfolding allowed
  allowed-Refines start now [] l log h v = later-Refines start now l log h v
  allowed-Refines start now (key ∷ keys) l log h v =
      let checked : Refines window now (allowed_key now key l).1 log =
        allowed_key-Refines window start now key l log h v in
      elim (Bool-cases (allowed_key now key l).0) [
        | inl under ↦
            rw (under, allowed)
              (allowed-Refines now now keys (allowed_key now key l).1 log (omega arith) checked)
        | inr over ↦ rw (over, allowed) checked
      ]

  record_failure-Refines :
      (start now : ℕ) (keys : List Text) (l : Limiter) (log : Log)
      → start ≤ now
      → Refines window start l log
      → Refines window now (record_failure now keys l) (log_failure now keys log)
  unfolding record_failure log_failure
  record_failure-Refines start now [] l log h v = later-Refines start now l log h v
  record_failure-Refines start now (key ∷ keys) l log h v =
      record_failure-Refines now now keys (record l { failures = push now key l.failures })
        (λ j. if same key j then log j ++ now ∷ [] else log j) (omega arith)
        (push-Refines window start now key l log h v)

  -- Whatever the calls, the limiter stands for the log of the failures that they reported.
  pub run-Refines :
      (start end : ℕ) (cs : List Call) (l : Limiter) (log : Log)
      → InOrder start cs end
      → Refines window start l log
      → Refines window end (run l cs) (log_run log cs)
  unfolding run log_run
  run-Refines start end [] l log h v = later-Refines start end l log h v
  run-Refines start end (check now keys ∷ cs) l log h v =
      run-Refines now end cs (allowed now keys l).1 log h.1
        (allowed-Refines start now keys l log h.0 v)
  run-Refines start end (failed now keys ∷ cs) l log h v =
      run-Refines now end cs (record_failure now keys l) (log_failure now keys log) h.1
        (record_failure-Refines start now keys l log h.0 v)
  run-Refines start end (cleared key ∷ cs) l log h v =
      run-Refines start end cs (clear key l) (λ j. if same key j then [] else log j) h
        (clear-Refines window start start key l log v)
