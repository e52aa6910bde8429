-- ===== src/Text/Utf8.antt =====
-- The UTF-8 encoding loses nothing.
use drone_dispatch.Common.{ℕ, ◌≡◌, refl, sym, List, [], ◌∷◌, ◌++◌, arith}
use drone_dispatch.Text.{Text, encode_char, bytes}

encode_char-cancel :
    (c d : ℕ) (xs ys : List ℕ) → encode_char c ++ xs ≡ encode_char d ++ ys → (c ≡ d) × (xs ≡ ys)
unfolding encode_char
encode_char-cancel c d xs ys e = ground arith

encode_char-ne-nil : (c : ℕ) (xs : List ℕ) → ¬ (encode_char c ++ xs ≡ [])
unfolding encode_char
encode_char-ne-nil c xs e = ground arith

pub bytes-injective : (s t : Text) → bytes s ≡ bytes t → s ≡ t
unfolding bytes
bytes-injective [] [] e = refl
bytes-injective [] (d ∷ t) e = absurd (encode_char-ne-nil d (bytes t) (sym e))
bytes-injective (c ∷ s) [] e = absurd (encode_char-ne-nil c (bytes s) e)
bytes-injective (c ∷ s) (d ∷ t) e =
    let (same_head, same_tail) = encode_char-cancel c d (bytes s) (bytes t) e in
    rw (same_head, bytes-injective s t same_tail)
