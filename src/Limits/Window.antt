-- ===== src/Limits/Window.antt =====
-- The limiter against its specification: a key is blocked while as many failures as the maximum lie
-- inside the window.
use drone_dispatch.Common.{
  ℕ, ◌+◌, ◌-◌, ◌≤◌, ◌≡◌, refl, Option, none, some, List, [], ◌∷◌, ◌++◌, arith, leb, if◌then◌else◌,
  length, All, All-append, Option-cases, inl, inr,
}
use drone_dispatch.Common.Table.{find, count, find-append}
use drone_dispatch.Limits.{
  Entry, Limiter, has_key, drop_expired, keep_times, allowed_key, push_back, push, clear,
}
use drone_dispatch.Text.{Text, same}
use drone_dispatch.Text.Equality.{same_iff}
use drone_dispatch.Text.Keyed.{find-update-by, find-delete-by}

abbrev pub entry_times : Option Entry → List ℕ
entry_times none = []
entry_times (some e) = e.times

-- The failures on record for a key.
abbrev pub history : Limiter → Text → List ℕ
history l key = entry_times (find (has_key key) l.failures)

-- How many instants lie inside the window that ends now.
unfoldable pub recent : ℕ → ℕ → List ℕ → ℕ
unfolding count
recent window now = count (λ t. leb (now - t) window)

-- Oldest first.
abbrev pub Ascending : List ℕ → Type 0
Ascending [] = Unit
Ascending (t ∷ ts) = All (λ u. t ≤ u) ts × Ascending ts

recent-All :
    (window now t : ℕ) (ts : List ℕ)
    → now - t ≤ window
    → All (λ u. t ≤ u) ts
    → recent window now ts ≡ length ts
unfolding recent
recent-All window now t [] h k = refl
recent-All window now t (u ∷ ts) h k = ground (arith, recent-All window now t ts h)

-- Popping from the front keeps exactly the failures inside the window.
pub length-drop_expired :
    (window now : ℕ) (ts : List ℕ)
    → Ascending ts
    → length (drop_expired window now ts) ≡ recent window now ts
unfolding drop_expired recent
length-drop_expired window now [] h = refl
length-drop_expired window now (t ∷ ts) h =
    ground (arith, length-drop_expired window now ts, recent-All window now t ts)

-- What is popped now lies outside the window at every later time too.
pub recent-drop_expired :
    (window now later : ℕ) (ts : List ℕ)
    → now ≤ later
    → recent window later (drop_expired window now ts) ≡ recent window later ts
unfolding drop_expired recent
recent-drop_expired window now later [] h = refl
recent-drop_expired window now later (t ∷ ts) h =
    ground (arith, recent-drop_expired window now later ts)

pub Ascending-drop_expired :
    (window now : ℕ) (ts : List ℕ) → Ascending ts → Ascending (drop_expired window now ts)
unfolding drop_expired
Ascending-drop_expired window now [] h = tt
Ascending-drop_expired window now (t ∷ ts) h = ground (arith, Ascending-drop_expired window now ts)

abbrev name_of : Entry → Text
name_of e = e.key

-- Checking one key prunes the failures of that key and of no other.
pub history-allowed_key :
    (now : ℕ) (key j : Text) (l : Limiter)
    → history (allowed_key now key l).1 j
      ≡ (if same key j then drop_expired l.window now (history l j) else history l j)
unfolding allowed_key drop_expired
history-allowed_key now key j l = elim (Option-cases (find (has_key key) l.failures)) [
  | inl missing ↦ rw (missing, allowed_key) (ground (arith, same_iff key j, missing))
  | inr (e, found) ↦
      rw (found, allowed_key)
        (ground (
          arith,
          found,
          same_iff key j,
          find-update-by name_of key j (keep_times (drop_expired l.window now e.times)) l.failures
              (λ r. refl),
        ))
]

pub history-clear :
    (key j : Text) (l : Limiter)
    → history (clear key l) j ≡ (if same key j then [] else history l j)
unfolding clear
history-clear key j l = ground (arith, find-delete-by name_of key j l.failures)

pub history-push :
    (now : ℕ) (key j : Text) (l : Limiter)
    → history (record l { failures = push now key l.failures }) j
      ≡ (if same key j then history l j ++ now ∷ [] else history l j)
unfolding push
history-push now key j l = elim (Option-cases (find (has_key key) l.failures)) [
  | inl missing ↦
      rw (missing, push)
        (ground (
          arith,
          missing,
          same_iff key j,
          find-append (has_key j) l.failures (record { key = key; times = now ∷ [] }),
        ))
  | inr (e, found) ↦
      rw (found, push)
        (ground (
          arith,
          found,
          same_iff key j,
          find-update-by name_of key j (push_back now) l.failures (λ r. refl),
        ))
]

pub recent-snoc :
    (window now t : ℕ) (ts : List ℕ)
    → recent window now (ts ++ t ∷ []) ≡ recent window now ts + recent window now (t ∷ [])
unfolding recent
recent-snoc window now t [] = ground arith
recent-snoc window now t (u ∷ ts) = ground (arith, recent-snoc window now t ts)

pub Ascending-snoc :
    (t : ℕ) (ts : List ℕ) → Ascending ts → All (λ u. u ≤ t) ts → Ascending (ts ++ t ∷ [])
Ascending-snoc t [] h k = (tt, tt)
Ascending-snoc t (u ∷ ts) h k =
    (All-append (λ v. u ≤ v) ts (t ∷ []) h.0 (k.0, tt), Ascending-snoc t ts h.1 k.1)

pub All-le_later :
    (now later : ℕ) (ts : List ℕ) → now ≤ later → All (λ u. u ≤ now) ts → All (λ u. u ≤ later) ts
All-le_later now later [] h k = tt
All-le_later now later (u ∷ ts) h k = (omega arith, All-le_later now later ts h k.1)

pub All-drop_expired :
    (bound window now : ℕ) (ts : List ℕ)
    → All (λ u. u ≤ bound) ts
    → All (λ u. u ≤ bound) (drop_expired window now ts)
unfolding drop_expired
All-drop_expired bound window now [] k = tt
All-drop_expired bound window now (u ∷ ts) k = ground (arith, All-drop_expired bound window now ts)
