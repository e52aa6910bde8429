-- ===== src/Merchant/Lookup.antt =====
-- What the menu shows under a section is what the table of items holds.
use mathlib.Core.Option
use drone_dispatch.Merchant.{Outside}
use drone_dispatch.Verifier.{Jwt}
use drone_dispatch.Common.{
  ◌≡◌, ℕ, List, Bool, Option, ◌==◌, ◌&&◌, and_then, map, Option-cases, arith, inl, inr,
}
use drone_dispatch.Merchant.Schema.{MerchantDb, Item, is_section, Section}
use drone_dispatch.Merchant.Menu.{
  SectionView, menu_of, ItemView, item_le, section_view, item_view, of_section, section_le,
}
use drone_dispatch.Merchant.Integrity.{Sound, in_section}
use drone_dispatch.Common.Table.{find, select, find_none, find_sound, at}
use drone_dispatch.Common.Sorting.{order_by, find-order_by}
use drone_dispatch.Merchant.Isolation.{item_of}
use drone_dispatch.Common.Table.Select.{find-map, find-select, count-select, count_mono}
use drone_dispatch.Merchant.Positions.{of_business}

-- The item that a menu shows with an id under a section.
abbrev pub shown : ℕ → ℕ → List SectionView → Option ItemView
shown section id views =
    and_then (find (λ (v : SectionView). v.section_id == section) views)
      (λ v. find (λ (i : ItemView). i.item_id == id) v.items)

-- The item with an id in a section of a business.
abbrev pub stored : ℕ → ℕ → ℕ → Item → Bool
stored business section id i = i.business_id == business && (i.section_id == section && i.id == id)

-- An item as the menu shows a row.
abbrev pub columns : Item → ItemView
columns i = record {
  item_id = i.id;
  section_id = i.section_id;
  name = i.name;
  spoken_name = i.spoken_name;
  description = i.description;
  amount_cents = i.price_cents;
  currency = i.currency;
  weight_g = i.weight_g;
  stock_qty = i.stock_qty;
  available = i.available;
}

module _ (jwt : Jwt) (outside : Outside) (business section : ℕ) (db : MerchantDb)
    (v : Sound db) where
  abbrev rows : List Item
  rows = order_by (item_le jwt outside) (select (item_of business) db.items)

  shown_section :
      find (λ (w : SectionView). w.section_id == section) (menu_of jwt outside business db)
      ≡ Option.map (section_view rows) (find (is_section business section) db.sections)
  unfolding menu_of
  shown_section = ground (
    arith,
    find-map (section_view rows) (λ (w : SectionView). w.section_id == section)
        (order_by section_le (select (of_business business) db.sections)),
    find-order_by section_le (λ (s : Section). s.id == section)
        (select (of_business business) db.sections),
    count-select (of_business business) (λ (s : Section). s.id == section) db.sections,
    count_mono (at (λ (s : Section). s.id) section) (is_section business section) db.sections
        (λ s h. ground arith),
    v.section_ids section,
    find-select (of_business business) (λ (s : Section). s.id == section) db.sections,
  )

  shown_item :
      (id : ℕ)
      → find (λ (i : ItemView). i.item_id == id) (map item_view (select (of_section section) rows))
        ≡ Option.map item_view (find (stored business section id) db.items)
  shown_item id = ground (
    arith,
    find-map item_view (λ (i : ItemView). i.item_id == id) (select (of_section section) rows),
    find-select (of_section section) (λ (i : Item). i.id == id) rows,
    find-order_by (item_le jwt outside) (λ (i : Item). i.section_id == section && i.id == id)
        (select (item_of business) db.items),
    count-select (item_of business) (λ (i : Item). i.section_id == section && i.id == id) db.items,
    count_mono (at (λ (i : Item). i.id) id) (stored business section id) db.items
        (λ i h. ground arith),
    v.item_ids id,
    find-select (item_of business) (λ (i : Item). i.section_id == section && i.id == id) db.items,
  )

  -- In sound tables, the menu of a business shows under a section exactly the items that the business has
  -- in that section, each with the columns of its row.
  pub shown-menu_of :
      (id : ℕ)
      → shown section id (menu_of jwt outside business db)
        ≡ Option.map columns (find (stored business section id) db.items)
  shown-menu_of id = elim (Option-cases (find (is_section business section) db.sections)) [
    | inl missing ↦ ground (
      arith,
      shown_section,
      missing,
      find_none (in_section business section) (stored business section id) db.items
          (λ i h. ground arith),
      v.housed business section,
    )
    | inr (s, found) ↦ ground (
      arith,
      shown_section,
      found,
      find_sound (is_section business section) db.sections found,
      shown_item id,
    )
  ]
