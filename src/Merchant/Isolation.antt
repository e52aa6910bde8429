-- ===== src/Merchant/Isolation.antt =====
-- Businesses do not see each other's menus change.
use mathlib.Core.Path.{subst}
use drone_dispatch.Merchant.{Outside, Service, Head}
use drone_dispatch.Verifier.{Jwt}
use drone_dispatch.Common.{
  ◌≡◌, ℕ, refl, sym, ap, Bool, ◌≢◌, some, ◌==◌, arith, inl, inr, ◌∙◌, Option-cases, Bool-cases,
  ==_iff,
}
use drone_dispatch.Merchant.Schema.{MerchantDb, Item, insert_section, insert_item, Section, is_item}
use drone_dispatch.Merchant.Menu.{menu_of}
use drone_dispatch.Merchant.Requests.{Request, serve, path_business}
use drone_dispatch.Common.Table.{select}
use drone_dispatch.Merchant.Rows.{Patch, patched, apply}
use drone_dispatch.Text.{Text}
use drone_dispatch.Merchant.Positions.{of_business}
use drone_dispatch.Merchant.Changes.{
  Change, MayChange, section_added, item_added, item_patched, serve-Served,
}
use drone_dispatch.Common.Table.Select.{select-append, select-update}
use drone_dispatch.Merchant.Access.{Granted}
use drone_dispatch.Merchant.Integrity.Runs.{serve-unnamed}

abbrev pub item_of : ℕ → Item → Bool
item_of business i = i.business_id == business

-- The rows of a menu.
record SameMenu (other : ℕ) (db db' : MerchantDb) : Type 0 where
  sections : select (of_business other) db'.sections ≡ select (of_business other) db.sections
  items : select (item_of other) db'.items ≡ select (item_of other) db.items

section_added-SameMenu :
    (other : ℕ) (db db' : MerchantDb) (row : Section)
    → other ≢ row.business_id
    → insert_section row db ≡ some db'
    → SameMenu other db db'
unfolding insert_section
section_added-SameMenu other db db' row differs e = record {
  sections = ground (arith, select-append (of_business other) db.sections row);
  items = ground arith;
}

item_added-SameMenu :
    (other : ℕ) (db db' : MerchantDb) (row : Item)
    → other ≢ row.business_id
    → insert_item row db ≡ some db'
    → SameMenu other db db'
unfolding insert_item
item_added-SameMenu other db db' row differs e = record {
  sections = ground arith;
  items = ground (arith, select-append (item_of other) db.items row);
}

item_patched-SameMenu :
    (other business id : ℕ) (db db' : MerchantDb) (p : Patch)
    → other ≢ business
    → patched business id p db ≡ some db'
    → SameMenu other db db'
item_patched-SameMenu other business id db db' p differs e = record {
  sections = ground arith;
  items = ground (
    arith,
    select-update (item_of other) (is_item business id) (apply p) db.items (λ i h. ground arith)
        (λ i. refl),
  );
}

Change-SameMenu :
    {business : ℕ} (other : ℕ) {db db' : MerchantDb}
    → other ≢ business
    → Change business db db'
    → SameMenu other db db'
Change-SameMenu other differs (section_added db db' row mine next inserted) =
    section_added-SameMenu other db db' row (λ h. differs (h ∙ mine)) inserted
Change-SameMenu other differs (item_added db db' row mine inserted) =
    item_added-SameMenu other db db' row (λ h. differs (h ∙ mine)) inserted
Change-SameMenu other differs (item_patched db db' id p done) =
    item_patched-SameMenu other _ id db db' p differs done

module _ (jwt : Jwt) (outside : Outside) where
  same_menu :
      (other : ℕ) (db db' : MerchantDb)
      → SameMenu other db db'
      → menu_of jwt outside other db' ≡ menu_of jwt outside other db
  unfolding menu_of
  same_menu other db db' h = rw (h.sections, h.items)

  MayChange-menu_of :
      {business : ℕ} (other : ℕ) {db db' : MerchantDb}
      → other ≢ business
      → MayChange business db db'
      → menu_of jwt outside other db' ≡ menu_of jwt outside other db
  MayChange-menu_of other differs (inl same) = ap (menu_of jwt outside other) same
  MayChange-menu_of other differs (inr step) =
      same_menu other _ _ (Change-SameMenu other differs step)

  -- A request changes the menu of a business only if its path names that business and its bearer token is
  -- accepted, has the scope `merchant` and is of a member of it.
  pub menu_of-serve :
      (head : Head) (request : Request outside) (s : Service) (business : ℕ)
      → menu_of jwt outside business (serve jwt outside head request s).1.db
        ≢ menu_of jwt outside business s.db
      → (raw : Text) × (path_business outside request ≡ some raw)
        × Granted jwt outside head raw business s
  menu_of-serve head request s business changed =
      elim (Option-cases (path_business outside request)) [
        | inl unnamed ↦ absurd (
            changed (
              ap (menu_of jwt outside business) (serve-unnamed jwt outside head request s unnamed)))
        | inr (raw, named) ↦ elim (serve-Served jwt outside head request raw s named) [
          | inl (b, granted, may) ↦ elim (Bool-cases (business == b)) [
            | inl same ↦ (
              raw,
              named,
              subst (λ k. Granted jwt outside head raw k s) (sym ((==_iff business b).0 same))
                  granted,
            )
            | inr differs ↦
                absurd (changed (MayChange-menu_of business (λ h. ground (arith, differs, h)) may))
          ]
          | inr (p, refused, same) ↦ absurd (changed (ap (menu_of jwt outside business) same))
        ]
      ]
