-- ===== src/Common/Bits.antt =====
-- When bitwise "or" and "xor" give zero: the facts behind a constant-time comparison.
use Prim.Native.Nat.{max, digits, differ, bit_or, bit_xor, bit_or-bitwise, bit_xor-bitwise}
use drone_dispatch.Common.{ℕ, zero, suc, ◌/◌, ◌%◌, ◌≤◌, ◌≡◌, refl, sym, ap, ◌∙◌, arith}

or_digits-eq-zero : (n a b : ℕ) → a ≤ n → digits (λ x. x) max n a b ≡ 0 → (a ≡ 0) × (b ≡ 0)
or_digits-eq-zero zero zero b h e = (refl, e)
or_digits-eq-zero zero (suc a) b h e = absurd (omega arith)
or_digits-eq-zero (suc n) zero b h e = (refl, e)
or_digits-eq-zero (suc n) (suc a) b h e =
    let (half, _) = or_digits-eq-zero n (suc a / 2) (b / 2) (omega arith) (omega arith) in
    absurd (omega arith)

pub bit_or-eq-zero : (a b : ℕ) → bit_or a b ≡ 0 → (a ≡ 0) × (b ≡ 0)
bit_or-eq-zero a b e = or_digits-eq-zero a a b (omega arith) (sym (bit_or-bitwise a b) ∙ e)

differ-eq-zero : (a b : ℕ) → differ a b ≡ 0 → a ≡ b
differ-eq-zero zero b e = sym e
differ-eq-zero (suc a) zero e = e
differ-eq-zero (suc a) (suc b) e = ap suc (differ-eq-zero a b e)

differ_self : (a : ℕ) → differ a a ≡ 0
differ_self zero = refl
differ_self (suc a) = differ_self a

xor_digits-eq-zero : (n a b : ℕ) → a ≤ n → digits (λ x. x) differ n a b ≡ 0 → a ≡ b
xor_digits-eq-zero zero zero b h e = sym e
xor_digits-eq-zero zero (suc a) b h e = absurd (omega arith)
xor_digits-eq-zero (suc n) zero b h e = sym e
xor_digits-eq-zero (suc n) (suc a) b h e =
    let half : suc a / 2 ≡ b / 2 =
      xor_digits-eq-zero n (suc a / 2) (b / 2) (omega arith) (omega arith) in
    let low : suc a % 2 ≡ b % 2 = differ-eq-zero (suc a % 2) (b % 2) (omega arith) in omega arith

pub bit_xor-eq-zero : (a b : ℕ) → bit_xor a b ≡ 0 → a ≡ b
bit_xor-eq-zero a b e = xor_digits-eq-zero a a b (omega arith) (sym (bit_xor-bitwise a b) ∙ e)

xor_digits_self : (n a : ℕ) → a ≤ n → digits (λ x. x) differ n a a ≡ 0
xor_digits_self zero zero h = refl
xor_digits_self zero (suc a) h = absurd (omega arith)
xor_digits_self (suc n) zero h = refl
xor_digits_self (suc n) (suc a) h =
    omega (arith, xor_digits_self n (suc a / 2) (omega arith), differ_self (suc a % 2))

pub bit_xor_self : (a : ℕ) → bit_xor a a ≡ 0
bit_xor_self a = bit_xor-bitwise a a ∙ xor_digits_self a a (omega arith)
