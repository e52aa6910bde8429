-- ===== src/Merchant/Positions.antt =====
-- The numbering of a business's sections: create_section takes the number after the largest one.
use drone_dispatch.Common.{
  ◌≡◌, ℕ, ◌≤◌, ◌<◌, ◌+◌, arith, refl, List, Bool, none, some, ◌==◌, ◌∷◌, if◌then◌else◌,
  Option-cases, ◌++◌, inl, ltb, [], inr,
}
use drone_dispatch.Common.Table.{count, count-append}
use drone_dispatch.Merchant.Schema.{Section, is_at_position}
use drone_dispatch.Merchant.Rows.{max_position, next_position}

abbrev pub of_business : ℕ → Section → Bool
of_business business s = s.business_id == business

max_none :
    (business : ℕ) (t : List Section)
    → max_position business t ≡ none
    → count (of_business business) t ≡ 0
unfolding max_position count
max_none business [] e = refl
max_none business (s ∷ t) e = ground (arith, max_none business t)

max_occurs :
    (business : ℕ) (t : List Section) (m : ℕ)
    → max_position business t ≡ some m
    → 0 < count (is_at_position business m) t
unfolding max_position count
max_occurs business [] m e = absurd (ground arith)
max_occurs business (s ∷ t) m e = elim (Option-cases (max_position business t)) [
  | inl alone ↦ ground (arith, alone)
  | inr (k, rest) ↦ ground (arith, rest, max_occurs business t k)
]

max_bounds :
    (business : ℕ) (t : List Section) (m k : ℕ)
    → max_position business t ≡ some m
    → m < k
    → count (is_at_position business k) t ≡ 0
unfolding max_position count
max_bounds business [] m k e h = refl
max_bounds business (s ∷ t) m k e h = elim (Option-cases (max_position business t)) [
  | inl alone ↦ ground (arith, alone, max_none business t, count_at business k t)
  | inr (j, rest) ↦ ground (arith, rest, max_bounds business t j k)
]
  where
    count_at :
        (business k : ℕ) (t : List Section)
        → count (is_at_position business k) t ≤ count (of_business business) t
    count_at business k [] = omega arith
    count_at business k (x ∷ t) = ground (arith, count_at business k t)

-- The sections of each business have the positions 0, 1, 2, ..., each once.
abbrev pub Numbered : List Section → Type 0
Numbered t =
    (business k : ℕ)
    → count (is_at_position business k) t
      ≡ (if ltb k (count (of_business business) t) then 1 else 0)

-- The next position is the number of sections that the business has.
pub next_position-eq-count :
    (business position : ℕ) (t : List Section)
    → Numbered t
    → next_position business t ≡ some position
    → position ≡ count (of_business business) t
unfolding next_position
next_position-eq-count business position t numbered e =
    elim (Option-cases (max_position business t)) [
      | inl empty ↦ ground (arith, empty, max_none business t)
      | inr (m, largest) ↦ ground (
        arith,
        largest,
        max_occurs business t m,
        max_bounds business t m (m + 1),
        numbered business m,
        numbered business (m + 1),
      )
    ]

pub Numbered-append :
    (t : List Section) (row : Section)
    → Numbered t
    → next_position row.business_id t ≡ some row.position
    → Numbered (t ++ row ∷ [])
unfolding count
Numbered-append t row numbered e business k = ground (
  arith,
  count-append (is_at_position business k) t row,
  count-append (of_business business) t row,
  numbered business k,
  next_position-eq-count row.business_id row.position t numbered e,
)
