-- ===== src/Text/Keyed.antt =====
-- Tables whose rows have a text for a key: what a query by key finds after each statement.
use mathlib.Core.Option
use drone_dispatch.Common.{◌≡◌, Bool, none, some, List, [], ◌∷◌, arith, if◌then◌else◌}
use drone_dispatch.Common.Table.{find, update, delete, find_sound}
use drone_dispatch.Text.{Text, same}
use drone_dispatch.Text.Equality.{same_iff, same_self}

module _ {ℓ} {A : Type ℓ} (key : A → Text) where
  abbrev pub by : Text → A → Bool
  by k r = same (key r) k

  pub find-update-by :
      (k j : Text) (f : A → A) (t : List A)
      → ((a : A) → key (f a) ≡ key a)
      → find (by j) (update (by k) f t)
        ≡ (if same k j then Option.map f (find (by k) t) else find (by j) t)
  unfolding find update
  find-update-by k j f [] h = ground arith
  find-update-by k j f (x ∷ t) h = ground (
    arith,
    h x,
    same_iff k j,
    same_iff (key x) j,
    same_iff (key x) k,
    find-update-by k j f t h,
    same_self j,
  )

  pub find-delete-by :
      (k j : Text) (t : List A)
      → find (by j) (delete (by k) t) ≡ (if same k j then none else find (by j) t)
  unfolding find delete
  find-delete-by k j [] = ground arith
  find-delete-by k j (x ∷ t) =
      ground (arith, same_iff k j, same_iff (key x) j, same_iff (key x) k, find-delete-by k j t)

  pub key_of_found : (k : Text) (t : List A) {r : A} → find (by k) t ≡ some r → key r ≡ k
  key_of_found k t {r} e = (same_iff (key r) k).0 (find_sound (by k) t e)
