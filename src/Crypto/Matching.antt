-- ===== src/Crypto/Matching.antt =====
-- The constant-time comparison is equality.
use Prim.Native.Nat.{bit_or, bit_xor}
use drone_dispatch.Common.{ℕ, ◌≡◌, refl, ◌↔◌, true, List, [], ◌∷◌, arith, length}
use drone_dispatch.Common.Bits.{bit_or-eq-zero, bit_xor-eq-zero, bit_xor_self}
use drone_dispatch.Crypto.{Primitives, hash_token, fold_diff, hashes_match}
use drone_dispatch.Text.{Text, bytes, byte_len}
use drone_dispatch.Text.Utf8.{bytes-injective}

fold_diff-eq-zero :
    (acc : ℕ) (xs ys : List ℕ)
    → length xs ≡ length ys
    → fold_diff acc xs ys ≡ 0
    → (acc ≡ 0) × (xs ≡ ys)
unfolding fold_diff
fold_diff-eq-zero acc [] [] h e = (e, refl)
fold_diff-eq-zero acc [] (y ∷ ys) h e = absurd (omega arith)
fold_diff-eq-zero acc (x ∷ xs) [] h e = absurd (omega arith)
fold_diff-eq-zero acc (x ∷ xs) (y ∷ ys) h e =
    let (joined, rest) = fold_diff-eq-zero (bit_or acc (bit_xor x y)) xs ys (omega arith) e in
    let (before, here) = bit_or-eq-zero acc (bit_xor x y) joined in
    (before, rw (bit_xor-eq-zero x y here, rest))

fold_diff_self : (xs : List ℕ) → fold_diff 0 xs xs ≡ 0
unfolding fold_diff
fold_diff_self [] = refl
fold_diff_self (x ∷ xs) = rw bit_xor_self (fold_diff_self xs)

equal_of_match : (a b : Text) → hashes_match a b ≡ true → a ≡ b
unfolding hashes_match byte_len
equal_of_match a b e =
    bytes-injective a b (fold_diff-eq-zero 0 (bytes a) (bytes b) (ground arith) (ground arith)).1

match_of_equal : (a : Text) → hashes_match a a ≡ true
unfolding hashes_match byte_len
match_of_equal a = ground (arith, fold_diff_self (bytes a))

-- The comparison accepts exactly the pairs of equal texts.
pub hashes_match_iff : (a b : Text) → (hashes_match a b ≡ true) ↔ (a ≡ b)
hashes_match_iff a b = (equal_of_match a b, λ e. rw e (match_of_equal b))

-- What the code relies on for its token hashes: different tokens have different hashes.
pub record IsCollisionFree (crates : Primitives) : Type 0 where
  pub sha256-injective : (xs ys : List ℕ) → crates.sha256 xs ≡ crates.sha256 ys → xs ≡ ys
  pub base64url-injective : (xs ys : List ℕ) → crates.base64url xs ≡ crates.base64url ys → xs ≡ ys

pub hash_token-injective :
    (crates : Primitives)
    → IsCollisionFree crates
    → (s t : Text) → hash_token crates s ≡ hash_token crates t
    → s ≡ t
unfolding hash_token
hash_token-injective crates free s t e =
    bytes-injective s t (free.sha256-injective _ _ (free.base64url-injective _ _ e))
