-- ===== src/Text/Dedup.antt =====
-- The order of texts, and `Vec::dedup`.
use drone_dispatch.Common.{Bool, true, false, ◌||◌, ◌&&◌, List, [], ◌∷◌, ltb, ◌==◌, if◌then◌else◌}
use drone_dispatch.Text.{Text, same}

-- That of the UTF-8 bytes is that of the characters.
unfoldable pub text_le : Text → Text → Bool
text_le [] t = true
text_le (c ∷ s) [] = false
text_le (c ∷ s) (d ∷ t) = let rest = text_le s t in ltb c d || (c == d && rest)

-- Of equal neighbours one stays.
unfoldable pub dedup : List Text → List Text
unfolding same
dedup [] = []
dedup (t ∷ ts) = elim (dedup ts) [ [] ↦ t ∷ [] | u ∷ us ↦ if same t u then u ∷ us else t ∷ u ∷ us ]
