-- ===== src/Station/Pinning.antt =====
-- What a drone accepts as the pinned key.
use drone_dispatch.Common.{◌≡◌, ◌↔◌, ℕ, refl, List, [], ◌∷◌, arith, true, ap, ◌/◌, ◌%◌}
use drone_dispatch.Station.{pinned_key_matches, public_key_sha256, hex_digit, hex}
use drone_dispatch.Crypto.{hashes_match}
use drone_dispatch.Text.{Text}
use drone_dispatch.Crypto.Matching.{hashes_match_iff}

hex_digit-injective : (a b : ℕ) → hex_digit a ≡ hex_digit b → a ≡ b
unfolding hex_digit
hex_digit-injective a b e = ground arith

same_byte :
    (a b : ℕ)
    → hex_digit (a / 16) ≡ hex_digit (b / 16)
    → hex_digit (a % 16) ≡ hex_digit (b % 16)
    → a ≡ b
same_byte a b high low =
    omega
      (arith, hex_digit-injective (a / 16) (b / 16) high, hex_digit-injective (a % 16) (b % 16) low)

hex-injective : (xs ys : List ℕ) → hex xs ≡ hex ys → xs ≡ ys
unfolding hex
hex-injective [] [] e = refl
hex-injective [] (y ∷ ys) e = cc
hex-injective (x ∷ xs) [] e = cc
hex-injective (x ∷ xs) (y ∷ ys) e =
    ground (arith, same_byte x y (cc) (cc), hex-injective xs ys (cc))

module _ (sha256 : List ℕ → List ℕ) where
  matches_iff :
      (key : List ℕ) (expected : Text)
      → (pinned_key_matches sha256 key expected ≡ true) ↔ (public_key_sha256 sha256 key ≡ expected)
  unfolding pinned_key_matches hashes_match
  matches_iff key expected = hashes_match_iff (public_key_sha256 sha256 key) expected

  -- A key matches the pin of another exactly if both have the same SHA-256.
  pub pinned_key_matches_iff :
      (key pinned : List ℕ)
      → (pinned_key_matches sha256 key (public_key_sha256 sha256 pinned) ≡ true)
        ↔ (sha256 key ≡ sha256 pinned)
  unfolding public_key_sha256
  pinned_key_matches_iff key pinned = (
    λ e.
        hex-injective (sha256 key) (sha256 pinned)
          ((matches_iff key (public_key_sha256 sha256 pinned)).0 e),
    λ e. (matches_iff key (public_key_sha256 sha256 pinned)).1 (ap hex e),
  )
