-- ===== src/Text.antt =====
-- Rust's `str` and `String`: a text is the list of its Unicode scalar values. `bytes` is its UTF-8
-- encoding, which `len`, `as_bytes` and the hash functions see.
pub mod Equality
pub mod Utf8
pub mod Keyed
pub mod Ascii
pub mod Dedup
use Prim.Native.String
use Prim.Native.Char.{code}
use drone_dispatch.Common.{
  ℕ, ◌+◌, ◌-◌, ◌*◌, ◌/◌, ◌%◌, String, Bool, true, false, not, ◌&&◌, ◌||◌, Option, none, some, List,
  [], ◌∷◌, ◌++◌, ltb, leb, ◌==◌, if◌then◌else◌, length, any,
}

abbrev pub Text : Type 0
Text = List ℕ

-- A literal of the source.
abbrev pub text : String → Text
text String.[] = []
text (String.◌∷◌ c s) = code c ∷ text s

unfoldable pub same : Text → Text → Bool
same [] [] = true
same [] (b ∷ t) = false
same (a ∷ s) [] = false
same (a ∷ s) (b ∷ t) = a == b && same s t

-- `slice.contains(text)`
unfoldable pub contains : List Text → Text → Bool
unfolding same
contains ts t = any (λ s. same s t) ts

abbrev pub is_empty : Text → Bool
is_empty [] = true
is_empty (c ∷ t) = false

unfoldable pub encode_char : ℕ → List ℕ
encode_char c =
    if ltb c 0x80
    then c ∷ []
    else if ltb c 0x800
    then (0xc0 + c / 64) ∷ (0x80 + c % 64) ∷ []
    else if ltb c 0x10000
    then (0xe0 + c / 4096) ∷ (0x80 + c / 64 % 64) ∷ (0x80 + c % 64) ∷ []
    else (0xf0 + c / 262144) ∷ (0x80 + c / 4096 % 64) ∷ (0x80 + c / 64 % 64) ∷ (0x80 + c % 64) ∷ []

unfoldable pub bytes : Text → List ℕ
unfolding encode_char
bytes [] = []
bytes (c ∷ t) = encode_char c ++ bytes t

-- `str::len`
unfoldable pub byte_len : Text → ℕ
unfolding bytes
byte_len t = length (bytes t)

-- `char::is_whitespace`: the Unicode property White_Space.
unfoldable pub is_whitespace : ℕ → Bool
is_whitespace c =
    (leb 0x9 c && leb c 0xd)
    || c == 0x20
    || c == 0x85
    || c == 0xa0
    || c == 0x1680
    || (leb 0x2000 c && leb c 0x200a)
    || c == 0x2028
    || c == 0x2029
    || c == 0x202f
    || c == 0x205f
    || c == 0x3000

unfoldable pub trim_start : Text → Text
unfolding is_whitespace
trim_start [] = []
trim_start (c ∷ t) = let rest = trim_start t in if is_whitespace c then rest else c ∷ t

-- A text that is all white space disappears; otherwise what stands after the last character goes.
trim_end : Text → Text
unfolding is_whitespace
trim_end [] = []
trim_end (c ∷ t) =
    let rest = trim_end t in if is_empty rest && is_whitespace c then [] else c ∷ rest

unfoldable pub trim : Text → Text
unfolding trim_start trim_end
trim t = trim_end (trim_start t)

-- `split_once(c)`
unfoldable pub split_once : ℕ → Text → Option (Text × Text)
split_once c [] = none
split_once c (d ∷ t) =
    let rest = split_once c t in
    if d == c then some ([], t) else elim rest [ none ↦ none | some (a, b) ↦ some (d ∷ a, b) ]

-- The pieces between the characters that `sep` holds of: `split`. There is always one.
unfoldable pub split : (ℕ → Bool) → Text → List Text
split sep [] = [] ∷ []
split sep (c ∷ t) =
    let rest = split sep t in
    if sep c
    then [] ∷ rest
    else elim rest [ [] ↦ (c ∷ []) ∷ [] | piece ∷ pieces ↦ (c ∷ piece) ∷ pieces ]

nonempty : List Text → List Text
nonempty [] = []
nonempty (t ∷ ts) = let rest = nonempty ts in if is_empty t then rest else t ∷ rest

-- `split_whitespace`
unfoldable pub split_whitespace : Text → List Text
unfolding split nonempty is_whitespace
split_whitespace t = nonempty (split is_whitespace t)

-- `join`
unfoldable pub join : Text → List Text → Text
join sep [] = []
join sep (t ∷ []) = t
join sep (t ∷ u ∷ ts) = t ++ sep ++ join sep (u ∷ ts)
