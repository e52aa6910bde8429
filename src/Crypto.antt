-- ===== src/Crypto.antt =====
-- services/auth-service/src/crypto.rs: token hashing, constant-time comparison and passwords.
pub mod Matching
use Prim.Native.Nat.{bit_or, bit_xor}
use drone_dispatch.Common.{ℕ, Bool, true, false, ◌&&◌, Option, none, some, List, [], ◌∷◌, ◌==◌}
use drone_dispatch.Text.{Text, bytes, byte_len}

-- What the crates sha2, base64 and argon2 give. Each is a function of the bytes that it is handed;
-- `argon2_verify` is false for a text that is no PHC string.
pub record Primitives : Type 0 where
  pub sha256 : List ℕ → List ℕ
  pub base64url : List ℕ → Text
  pub argon2_hash : (password salt : List ℕ) → Option Text
  pub argon2_verify : (hash : Text) (password : List ℕ) → Bool

module _ (crates : Primitives) where
  open crates use {sha256, base64url, argon2_hash, argon2_verify}

  unfoldable pub hash_token : Text → Text
  hash_token token = base64url (sha256 (bytes token))

  unfoldable pub pkce_s256 : Text → Text
  pkce_s256 verifier = hash_token verifier

  unfoldable pub hash_password : (salt : List ℕ) → Text → Option Text
  hash_password salt password = argon2_hash (bytes password) salt

  unfoldable pub verify_password : Text → Text → Bool
  verify_password hash password = argon2_verify hash (bytes password)

-- `zip(..).fold(acc, |acc, (x, y)| acc | (x ^ y))`
unfoldable pub fold_diff : ℕ → List ℕ → List ℕ → ℕ
fold_diff acc [] ys = acc
fold_diff acc (x ∷ xs) [] = acc
fold_diff acc (x ∷ xs) (y ∷ ys) = fold_diff (bit_or acc (bit_xor x y)) xs ys

unfoldable pub hashes_match : Text → Text → Bool
unfolding fold_diff
hashes_match a b = byte_len a == byte_len b && fold_diff 0 (bytes a) (bytes b) == 0
