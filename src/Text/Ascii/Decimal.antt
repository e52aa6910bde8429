-- ===== src/Text/Ascii/Decimal.antt =====
-- Numbers as `{}` formats them and `parse` reads them back.
use drone_dispatch.Common.{
  ◌≡◌, ℕ, zero, suc, ◌+◌, ◌-◌, ◌*◌, ◌/◌, ◌<◌, [], ◌∷◌, ◌++◌, some, and_then, Bool-cases, inl, inr,
  arith, ltb, refl, ◌%◌,
}
use drone_dispatch.Text.{Text}
use drone_dispatch.Text.Ascii.{digits, decimal_u64, digits_value}

digits_value-append :
    (acc : ℕ) (s t : Text)
    → digits_value acc (s ++ t) ≡ and_then (digits_value acc s) (λ a. digits_value a t)
unfolding digits_value
digits_value-append acc [] t = refl
digits_value-append acc (c ∷ s) t = ground (arith, digits_value-append (acc * 10 + (c - 48)) s t)

-- The powers of ten.
abbrev pub pow10 : ℕ → ℕ
pow10 zero = 1
pow10 (suc n) = 10 * pow10 n

-- As many digits as the fuel are enough for the numbers below that power of ten.
digits-enough : (fuel n : ℕ) → n < pow10 fuel → digits_value 0 (digits fuel n) ≡ some n
unfolding digits digits_value
digits-enough zero n h = ground arith
digits-enough (suc fuel) n h = elim (Bool-cases (ltb n 10)) [
  | inl small ↦ ground (arith, small)
  | inr large ↦
      rw
        (
          large,
          digits_value-append 0 (digits fuel (n / 10)) ((48 + n % 10) ∷ []),
          digits-enough fuel (n / 10) (omega (arith, h)),
        )
        (ground arith)
]

-- What is written of a `u64` is read back as it.
pub decimal_u64-read : (n : ℕ) → n < 18446744073709551616 → digits_value 0 (decimal_u64 n) ≡ some n
unfolding decimal_u64
decimal_u64-read n h = digits-enough 20 n (omega arith)
