-- ===== src/Common/Table/Select.antt =====
-- What the statements that change a table leave to a query that they do not concern.
use mathlib.Core.Option
use drone_dispatch.Common.{
  ◌≡◌, refl, Bool, true, false, List, [], ◌∷◌, ◌++◌, arith, if◌then◌else◌, ◌&&◌, map, ◌≤◌, length,
}
use drone_dispatch.Common.Table.{select, update, find, count}

module _ {ℓ} {A : Type ℓ} (p : A → Bool) where
  pub select-append :
      (t : List A) (r : A)
      → select p (t ++ r ∷ []) ≡ (if p r then select p t ++ r ∷ [] else select p t)
  unfolding select
  select-append [] r = ground arith
  select-append (x ∷ t) r = ground (arith, select-append t r)

  -- An update of other rows leaves the query's rows.
  pub select-update :
      (q : A → Bool) (f : A → A) (t : List A)
      → ((a : A) → q a ≡ true → p a ≡ false)
      → ((a : A) → p (f a) ≡ p a)
      → select p (update q f t) ≡ select p t
  unfolding select update
  select-update q f [] h k = refl
  select-update q f (x ∷ t) h k = ground (arith, h x, k x, select-update q f t h k)

  -- A query on the rows of another query.
  pub find-select : (q : A → Bool) (t : List A) → find q (select p t) ≡ find (λ a. p a && q a) t
  unfolding find select
  find-select q [] = refl
  find-select q (x ∷ t) = ground (arith, find-select q t)

  pub count-select : (q : A → Bool) (t : List A) → count q (select p t) ≡ count (λ a. p a && q a) t
  unfolding count select
  count-select q [] = refl
  count-select q (x ∷ t) = ground (arith, count-select q t)

  -- A narrower query finds no more rows.
  pub count_mono :
      (q : A → Bool) (t : List A) → ((a : A) → q a ≡ true → p a ≡ true) → count q t ≤ count p t
  unfolding count
  count_mono q [] h = omega arith
  count_mono q (x ∷ t) h = ground (arith, h x, count_mono q t h)

  pub length-select : (t : List A) → length (select p t) ≡ count p t
  unfolding select count
  length-select [] = refl
  length-select (x ∷ t) = ground (arith, length-select t)

pub find-map {ℓ κ} :
    {A : Type ℓ} {B : Type κ} (f : A → B) (q : B → Bool) (t : List A)
    → find q (map f t) ≡ Option.map f (find (λ a. q (f a)) t)
unfolding find
find-map f q [] = refl
find-map f q (x ∷ t) = ground (arith, find-map f q t)
