-- ===== src/Limits.antt =====
-- services/auth-service/src/limits.rs: failed-attempt limits. Every operation takes the monotonic
-- clock's reading (`Instant::now`) as an argument; instants and the window are in nanoseconds.
pub mod Window
pub mod Log
pub mod Refinement
pub mod Lockout
mod Tests
use drone_dispatch.Common.{
  ℕ, ◌-◌, Bool, true, false, Option, none, some, List, [], ◌∷◌, ◌++◌, ltb, if◌then◌else◌, length,
}
use drone_dispatch.Common.Table.{find, update, delete}
use drone_dispatch.Text.{Text, same}

-- An entry of the map from keys to the instants of failures, oldest first.
pub record Entry : Type 0 where
  pub key : Text
  pub times : List ℕ

pub record Limiter : Type 0 where
  pub max_failures : ℕ
  pub window : ℕ
  pub failures : List Entry

unfoldable pub new : ℕ → ℕ → Limiter
new max_failures window = record { max_failures = max_failures; window = window; failures = [] }

abbrev pub has_key : Text → Entry → Bool
has_key key e = same e.key key

-- The `while` loop of `allowed`: it pops from the front as long as that instant is outside the
-- window. `duration_since` stops at zero, as `-` does.
unfoldable pub drop_expired : ℕ → ℕ → List ℕ → List ℕ
drop_expired window now [] = []
drop_expired window now (t ∷ times) =
    let rest = drop_expired window now times in if ltb window (now - t) then rest else t ∷ times

abbrev pub keep_times : List ℕ → Entry → Entry
keep_times times e = record e { times = times }

-- The closure that `allowed` runs for one key.
unfoldable pub allowed_key : ℕ → Text → Limiter → Bool × Limiter
unfolding drop_expired
allowed_key now key l = elim (find (has_key key) l.failures) [
  | none ↦ (true, l)
  | some e ↦
      let times = drop_expired l.window now e.times in
      (
        ltb (length times) l.max_failures,
        record l { failures = update (has_key key) (keep_times times) l.failures },
      )
]

-- `all` stops at the first key that is over the limit.
unfoldable pub allowed : ℕ → List Text → Limiter → Bool × Limiter
unfolding allowed_key
allowed now [] l = (true, l)
allowed now (key ∷ keys) l =
    let (under, l') = allowed_key now key l in
    let rest = allowed now keys l' in if under then rest else (false, l')

abbrev pub push_back : ℕ → Entry → Entry
push_back now e = record e { times = e.times ++ now ∷ [] }

-- `entry(key).or_default().push_back(now)`
unfoldable pub push : ℕ → Text → List Entry → List Entry
push now key failures = elim (find (has_key key) failures) [
  | none ↦ failures ++ record { key = key; times = now ∷ [] } ∷ []
  | some e ↦ update (has_key key) (push_back now) failures
]

unfoldable pub record_failure : ℕ → List Text → Limiter → Limiter
unfolding push
record_failure now [] l = l
record_failure now (key ∷ keys) l =
    record_failure now keys (record l { failures = push now key l.failures })

unfoldable pub clear : Text → Limiter → Limiter
clear key l = record l { failures = delete (has_key key) l.failures }
