-- ===== src/Merchant/Integrity.antt =====
-- The integrity of the menus: what every request of the merchant API keeps true of the tables.
pub mod Runs
use mathlib.Core.Path.{subst}
use drone_dispatch.Common.{
  ◌≡◌, ℕ, ◌≤◌, ◌<◌, ◌+◌, arith, refl, Bool, List, some, ◌==◌, not, none, any, inl, ◌&&◌, ◌++◌, ◌∷◌,
  false, [], sym, inr,
}
use drone_dispatch.Common.Table.{
  count, find, at, update, count-append, count_of_none, find-append, count-update, find-update_none,
}
use drone_dispatch.Merchant.Schema.{
  Item, MerchantDb, Section, insert_section, insert_item, is_item, valid_item, is_section,
}
use drone_dispatch.Merchant.Edit.{change}
use drone_dispatch.Merchant.Rows.{Patch, next_position, patched, apply}
use drone_dispatch.Merchant.Changes.{Change, MayChange, section_added, item_added, item_patched}
use drone_dispatch.Merchant.Positions.{Numbered, Numbered-append}

abbrev pub in_section : ℕ → ℕ → Item → Bool
in_section business section i = i.business_id == business && i.section_id == section

abbrev pub is_bad : Item → Bool
is_bad i = not (valid_item i)

-- Ids are unique, the sections of a business are numbered from 0 without gaps, every item stands in a
-- section of its business, and every item passes the CHECKs.
pub record Sound (db : MerchantDb) : Type 0 where
  pub section_ids : (id : ℕ) → count (at (λ (s : Section). s.id) id) db.sections ≤ 1
  pub item_ids : (id : ℕ) → count (at (λ (i : Item). i.id) id) db.items ≤ 1
  pub numbered : Numbered db.sections
  pub housed :
      (business section : ℕ)
      → find (is_section business section) db.sections ≡ none
      → find (in_section business section) db.items ≡ none
  pub valid : find is_bad db.items ≡ none

id_of_section : Section → ℕ
id_of_section s = s.id

count_new {ℓ} :
    {A : Type ℓ} (id : A → ℕ) (t : List A) (row : A) (k : ℕ)
    → find (at id (id row)) t ≡ none
    → count (at id k) t ≤ 1
    → count (at id k) (t ++ row ∷ []) ≤ 1
unfolding count
count_new id t row k fresh once =
    ground (arith, count-append (at id k) t row, count_of_none (at id (id row)) t)

section_added-Sound :
    (row : Section) (db db' : MerchantDb)
    → Sound db
    → next_position row.business_id db.sections ≡ some row.position
    → insert_section row db ≡ some db'
    → Sound db'
unfolding insert_section
section_added-Sound row db db' v next e =
    subst Sound {x = record db { sections = db.sections ++ row ∷ [] }} (ground arith) (record {
      section_ids = λ k. count_new (λ s. s.id) db.sections row k (ground arith) (v.section_ids k);
      item_ids = v.item_ids;
      numbered = Numbered-append db.sections row v.numbered next;
      housed = λ b s gone.
          v.housed b s (ground (arith, gone, find-append (is_section b s) db.sections row));
      valid = v.valid;
    })

item_added-Sound :
    (row : Item) (db db' : MerchantDb) → Sound db → insert_item row db ≡ some db' → Sound db'
unfolding insert_item
item_added-Sound row db db' v e =
    subst Sound {x = record db { items = db.items ++ row ∷ [] }} (ground arith) (record {
      section_ids = v.section_ids;
      item_ids = λ k. count_new (λ i. i.id) db.items row k (ground arith) (v.item_ids k);
      numbered = v.numbered;
      housed = λ b s gone.
          ground (arith, v.housed b s gone, gone, find-append (in_section b s) db.items row);
      valid = ground (arith, v.valid, find-append is_bad db.items row);
    })

-- Rows that an update makes pass a test, among rows that passed it.
valid-update :
    (q : Item → Bool) (f : Item → Item) (t : List Item)
    → ((i : Item) → q (f i) ≡ q i)
    → any (λ i. q i && is_bad i) (update q f t) ≡ false
    → find is_bad t ≡ none
    → find is_bad (update q f t) ≡ none
unfolding find update
valid-update q f [] h e v = refl
valid-update q f (i ∷ t) h e v = ground (arith, h i, valid-update q f t h)

item_patched-Sound :
    (business id : ℕ) (p : Patch) (db db' : MerchantDb)
    → Sound db
    → patched business id p db ≡ some db'
    → Sound db'
item_patched-Sound business id p db db' v e =
    let items = update (is_item business id) (apply p) db.items in
    subst Sound {x = record db { items = items }} (ground arith) (record {
      section_ids = v.section_ids;
      item_ids = λ k.
          rw
            (count-update (at (λ (i : Item). i.id) k) (is_item business id) (apply p) db.items
              (λ i. refl))
            (v.item_ids k);
      numbered = v.numbered;
      housed = λ b s gone.
          find-update_none (in_section b s) (is_item business id) (apply p) db.items (λ i h. h)
            (v.housed b s gone);
      valid =
          valid-update (is_item business id) (apply p) db.items (λ i. refl) (ground arith) v.valid;
    })

pub Change-Sound :
    {business : ℕ} {db db' : MerchantDb} → Change business db db' → Sound db → Sound db'
Change-Sound (section_added db db' row mine next inserted) v =
    section_added-Sound row db db' v (ground (arith, mine, next)) inserted
Change-Sound (item_added db db' row mine inserted) v = item_added-Sound row db db' v inserted
Change-Sound (item_patched db db' id p done) v = item_patched-Sound _ id p db db' v done

pub MayChange-Sound :
    {business : ℕ} {db db' : MerchantDb} → MayChange business db db' → Sound db → Sound db'
MayChange-Sound (inl same) v = subst Sound (sym same) v
MayChange-Sound (inr step) v = Change-Sound step v
