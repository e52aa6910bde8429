-- ===== src/Common/Table.antt =====
-- A database table: its rows in the order of insertion, with SQL's statements on them. `p` and `q`
-- stand for WHERE clauses.
pub mod Select
use mathlib.Core.Option
use drone_dispatch.Common.{
  ℕ, suc, ◌+◌, ◌≤◌, ◌<◌, ◌≡◌, refl, Bool, true, false, Option, none, some, List, [], ◌∷◌, ◌++◌,
  arith, Bool-cases, if◌then◌else◌, or_else, inl, inr, ◌==◌, ==_iff,
}

module _ {ℓ} {A : Type ℓ} where
  -- SELECT ... WHERE p, on a unique key.
  unfoldable pub find : (A → Bool) → List A → Option A
  find p [] = none
  find p (r ∷ t) = if p r then some r else find p t

  -- SELECT ... WHERE p.
  unfoldable pub select : (A → Bool) → List A → List A
  select p [] = []
  select p (r ∷ t) = let rest = select p t in if p r then r ∷ rest else rest

  -- SELECT count(*) ... WHERE p.
  unfoldable pub count : (A → Bool) → List A → ℕ
  count p [] = 0
  count p (r ∷ t) = let rest = count p t in if p r then suc rest else rest

  -- UPDATE ... SET f WHERE q.
  unfoldable pub update : (A → Bool) → (A → A) → List A → List A
  update q f [] = []
  update q f (r ∷ t) = (if q r then f r else r) ∷ update q f t

  -- DELETE ... WHERE q.
  unfoldable pub delete : (A → Bool) → List A → List A
  delete q [] = []
  delete q (r ∷ t) = let rest = delete q t in if q r then rest else r ∷ rest

  -- INSERT of a row, refused where a row already meets `p` (its unique keys).
  unfoldable pub insert : (A → Bool) → A → List A → Option (List A)
  unfolding find
  insert p r t = elim (find p t) [ none ↦ some (t ++ r ∷ []) | some _ ↦ none ]

  pub find-append :
      (p : A → Bool) (t : List A) (r : A)
      → find p (t ++ r ∷ []) ≡ or_else (find p t) (if p r then some r else none)
  unfolding find
  find-append p [] r = ground arith
  find-append p (x ∷ t) r = ground (arith, find-append p t r)

  -- An update that keeps the key of the query changes the row found, and finds the same one.
  pub find-update :
      (p q : A → Bool) (f : A → A) (t : List A)
      → ((a : A) → p (f a) ≡ p a)
      → find p (update q f t) ≡ Option.map (λ r. if q r then f r else r) (find p t)
  unfolding find update
  find-update p q f [] h = refl
  find-update p q f (x ∷ t) h = elim (Bool-cases (q x)) [
    | inl e ↦ ground (arith, find-update p q f t h, h x)
    | inr e ↦ ground (arith, find-update p q f t h)
  ]

  pub find-delete : (p : A → Bool) (t : List A) → find p (delete p t) ≡ none
  unfolding find delete
  find-delete p [] = refl
  find-delete p (x ∷ t) = ground (arith, find-delete p t)

  pub find_sound : (p : A → Bool) (t : List A) {a : A} → find p t ≡ some a → p a ≡ true
  unfolding find
  find_sound p [] e = ground arith
  find_sound p (x ∷ t) {a} e = ground (arith, find_sound p t {a = a})

-- The same for rows that are numbered.
module _ {ℓ} {A : Type ℓ} (id : A → ℕ) where
  abbrev pub at : ℕ → A → Bool
  at k r = id r == k

  pub find-update-at :
      (k j : ℕ) (f : A → A) (t : List A)
      → ((a : A) → id (f a) ≡ id a)
      → find (at j) (update (at k) f t)
        ≡ (if k == j then Option.map f (find (at k) t) else find (at j) t)
  unfolding find update
  find-update-at k j f [] h = ground arith
  find-update-at k j f (x ∷ t) h = ground (arith, h x, find-update-at k j f t h)

  pub id_of_found : (k : ℕ) (t : List A) {r : A} → find (at k) t ≡ some r → id r ≡ k
  id_of_found k t {r} e = (==_iff (id r) k).0 (find_sound (at k) t e)

module _ {ℓ} {A : Type ℓ} (p q : A → Bool) (f : A → A) where
  -- An update that makes no row meet the query leaves nothing to find.
  pub find-update_none :
      (t : List A)
      → ((a : A) → p a ≡ false → p (f a) ≡ false)
      → find p t ≡ none
      → find p (update q f t) ≡ none
  unfolding find update
  find-update_none [] h e = refl
  find-update_none (x ∷ t) h e = ground (arith, h x, find-update_none t h)

  pub count-update : (t : List A) → ((a : A) → p (f a) ≡ p a) → count p (update q f t) ≡ count p t
  unfolding count update
  count-update [] h = refl
  count-update (x ∷ t) h = ground (arith, h x, count-update t h)

module _ {ℓ} {A : Type ℓ} (p : A → Bool) where
  pub find-update_all :
      (f : A → A) (t : List A) → ((a : A) → p (f a) ≡ false) → find p (update p f t) ≡ none
  unfolding find update
  find-update_all f [] h = refl
  find-update_all f (x ∷ t) h = ground (arith, h x, find-update_all f t h)

  pub count-append : (t : List A) (r : A) → count p (t ++ r ∷ []) ≡ count p t + count p (r ∷ [])
  unfolding count
  count-append [] r = ground arith
  count-append (x ∷ t) r = ground (arith, count-append t r)

  pub count_of_none : (t : List A) → find p t ≡ none → count p t ≡ 0
  unfolding find count
  count_of_none [] e = refl
  count_of_none (x ∷ t) e = ground (arith, count_of_none t)

  pub count_pos :
      (q : A → Bool) (t : List A) (a : A)
      → ((b : A) → p b ≡ true → q b ≡ true)
      → find p t ≡ some a
      → 0 < count q t
  unfolding find count
  count_pos q [] a h e = ground arith
  count_pos q (x ∷ t) a h e = ground (arith, h x, count_pos q t a h)

  -- Where at most one row meets the wider query, both queries find the same row.
  pub find_unique :
      (q : A → Bool) (t : List A) (a : A)
      → ((b : A) → p b ≡ true → q b ≡ true)
      → count q t ≤ 1
      → find p t ≡ some a
      → find q t ≡ some a
  unfolding find count
  find_unique q [] a h u e = ground arith
  find_unique q (x ∷ t) a h u e = ground (arith, h x, find_unique q t a h, count_pos q t a h)

  -- The first row of a query is also the first of a narrower query that it meets.
  pub find_narrow :
      (q : A → Bool) (t : List A) (a : A)
      → ((b : A) → q b ≡ true → p b ≡ true)
      → find p t ≡ some a
      → q a ≡ true
      → find q t ≡ some a
  unfolding find
  find_narrow q [] a h e k = ground arith
  find_narrow q (x ∷ t) a h e k = ground (arith, h x, find_narrow q t a h)

  -- What a query does not find, a narrower one does not find.
  pub find_none :
      (q : A → Bool) (t : List A)
      → ((b : A) → q b ≡ true → p b ≡ true)
      → find p t ≡ none
      → find q t ≡ none
  unfolding find
  find_none q [] h e = refl
  find_none q (x ∷ t) h e = ground (arith, h x, find_none q t h)
