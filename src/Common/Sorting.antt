-- ===== src/Common/Sorting.antt =====
-- ORDER BY: the rows of a query in the order of `le`. Rows that `le` does not tell apart stay in the
-- order of insertion, which SQL leaves open.
use drone_dispatch.Common.{◌+◌, ◌≡◌, refl, Bool, List, [], ◌∷◌, arith, if◌then◌else◌, length, ◌≤◌}
use drone_dispatch.Common.Table.{count, find, count_of_none}

module _ {ℓ} {A : Type ℓ} (le : A → A → Bool) where
  unfoldable pub insert_row : A → List A → List A
  insert_row r [] = r ∷ []
  insert_row r (x ∷ t) = let rest = insert_row r t in if le r x then r ∷ x ∷ t else x ∷ rest

  unfoldable pub order_by : List A → List A
  unfolding insert_row
  order_by [] = []
  order_by (r ∷ t) = insert_row r (order_by t)

  count-insert_row :
      (p : A → Bool) (r : A) (t : List A) → count p (insert_row r t) ≡ count p (r ∷ t)
  unfolding count insert_row
  count-insert_row p r [] = refl
  count-insert_row p r (x ∷ t) = ground (arith, count-insert_row p r t)

  -- Sorting keeps the rows that meet a query, as often as they occur.
  pub count-order_by : (p : A → Bool) (t : List A) → count p (order_by t) ≡ count p t
  unfolding count order_by
  count-order_by p [] = refl
  count-order_by p (r ∷ t) = ground (arith, count-insert_row p r (order_by t), count-order_by p t)

  find-insert_row :
      (p : A → Bool) (r : A) (t : List A)
      → count p (r ∷ t) ≤ 1
      → find p (insert_row r t) ≡ find p (r ∷ t)
  unfolding find count insert_row
  find-insert_row p r [] h = refl
  find-insert_row p r (x ∷ t) h = ground (arith, find-insert_row p r t, count_of_none p t)

  -- Where at most one row meets a query, sorting does not change which.
  pub find-order_by : (p : A → Bool) (t : List A) → count p t ≤ 1 → find p (order_by t) ≡ find p t
  unfolding find count order_by
  find-order_by p [] h = refl
  find-order_by p (r ∷ t) h =
      ground (arith, find-insert_row p r (order_by t), count-order_by p t, find-order_by p t)

  length-insert_row : (r : A) (t : List A) → length (insert_row r t) ≡ length t + 1
  unfolding insert_row
  length-insert_row r [] = omega arith
  length-insert_row r (x ∷ t) = ground (arith, length-insert_row r t)

  pub length-order_by : (t : List A) → length (order_by t) ≡ length t
  unfolding order_by
  length-order_by [] = refl
  length-order_by (r ∷ t) = omega (arith, length-insert_row r (order_by t), length-order_by t)
