-- ===== src/Text/Ascii.antt =====
-- ASCII: `eq_ignore_ascii_case`, and numbers in decimal as `{}` formats and `parse` reads them.
mod Decimal
use drone_dispatch.Common.{
  ℕ, zero, suc, ◌+◌, ◌/◌, ◌%◌, Bool, ◌&&◌, [], ◌∷◌, ◌++◌, map, ltb, leb, if◌then◌else◌, Option,
  some, ◌*◌, ◌-◌, none,
}
use drone_dispatch.Text.{Text, same}

unfoldable pub to_ascii_lowercase : ℕ → ℕ
to_ascii_lowercase c = if leb b'A' c && leb c b'Z' then c + 32 else c

unfoldable pub eq_ignore_ascii_case : Text → Text → Bool
unfolding to_ascii_lowercase same
eq_ignore_ascii_case s t = same (map to_ascii_lowercase s) (map to_ascii_lowercase t)

-- The digits of a number, at most as many as the fuel; a `u64` has no more than twenty.
digits : ℕ → ℕ → Text
digits zero n = []
digits (suc fuel) n =
    let front = digits fuel (n / 10) in
    if ltb n 10 then (48 + n) ∷ [] else front ++ (48 + n % 10) ∷ []

unfoldable pub decimal_u64 : ℕ → Text
unfolding digits
decimal_u64 n = digits 20 n

-- The number that decimal digits continue, or that a text is no row of digits.
unfoldable pub digits_value : ℕ → Text → Option ℕ
digits_value acc [] = some acc
digits_value acc (c ∷ t) =
    let rest = digits_value (acc * 10 + (c - 48)) t in if leb 48 c && leb c 57 then rest else none
