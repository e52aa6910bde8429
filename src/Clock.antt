-- ===== src/Clock.antt =====
-- Times and durations. An instant is a number of nanoseconds; a request reads the clock of Postgres
-- (`now()`, the start of the transaction) and that of the service (`OffsetDateTime::now_utc()`).
use drone_dispatch.Common.{ℕ, ◌+◌, ◌-◌, ◌*◌, ◌/◌, leb, if◌then◌else◌}
use drone_dispatch.Common.Int.{ℤ, pos, sub_ℕ}

pub record Clock : Type 0 where
  pub db_now : ℕ
  pub utc_now : ℕ

abbrev pub second : ℕ
second = 1000000000

abbrev pub seconds : ℕ → ℕ
seconds n = n * 1000000000

abbrev pub days : ℕ → ℕ
days n = n * 86400000000000

-- `(a - b).whole_seconds()`, which rounds towards zero.
unfoldable pub whole_seconds : ℕ → ℕ → ℤ
whole_seconds a b = if leb b a then pos ((a - b) / 1000000000) else sub_ℕ 0 ((b - a) / 1000000000)

-- `extract(epoch FROM a - b)::bigint`: a numeric, which the cast rounds to the nearest integer, and a
-- half away from zero.
unfoldable pub rounded_seconds : ℕ → ℕ → ℤ
rounded_seconds a b =
    if leb b a
    then pos ((a - b + 500000000) / 1000000000)
    else sub_ℕ 0 ((b - a + 500000000) / 1000000000)
