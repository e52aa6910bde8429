-- ===== src/Text/Equality.antt =====
-- `same` decides equality of texts.
use drone_dispatch.Common.{◌≡◌, refl, ◌↔◌, true, [], ◌∷◌, arith}
use drone_dispatch.Text.{Text, same}

pub same_self : (t : Text) → same t t ≡ true
unfolding same
same_self [] = refl
same_self (a ∷ t) = ground (arith, same_self t)

pub same_sound : (s t : Text) → same s t ≡ true → s ≡ t
unfolding same
same_sound [] [] e = refl
same_sound [] (b ∷ t) e = ground arith
same_sound (a ∷ s) [] e = ground arith
same_sound (a ∷ s) (b ∷ t) e = ground (arith, same_sound s t)

pub same_iff : (s t : Text) → (same s t ≡ true) ↔ (s ≡ t)
same_iff s t = (same_sound s t, λ e. rw e (same_self t))
