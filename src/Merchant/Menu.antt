-- ===== src/Merchant/Menu.antt =====
-- services/merchant-service/src/api.rs: the operations that read. JSON replies are
-- records with the fields that the code writes.
use drone_dispatch.Common.{ℕ, Bool, ◌&&◌, ◌||◌, Option, List, [], ◌∷◌, ◌++◌, map, ◌==◌, ltb, leb}
use drone_dispatch.Common.Exec.{gets, ◌>>=◌, ◌>>◌}
use drone_dispatch.Common.Int.{ℤ}
use drone_dispatch.Common.Sorting.{order_by}
use drone_dispatch.Common.Table.{select}
use drone_dispatch.Merchant.{Outside, Api, Head, merchant, user_id, business_id, member}
use drone_dispatch.Merchant.Schema.{Business, Member, Section, Item, MerchantDb}
use drone_dispatch.Text.{Text}
use drone_dispatch.Verifier.{Jwt}

pub record ItemView : Type 0 where
  pub item_id : ℕ
  pub section_id : ℕ
  pub name : Text
  pub spoken_name : Text
  pub description : Text
  pub amount_cents : ℤ
  pub currency : Text
  pub weight_g : ℤ
  pub stock_qty : Option ℤ
  pub available : Bool

pub record SectionView : Type 0 where
  pub section_id : ℕ
  pub name : Text
  pub position : ℕ
  pub items : List ItemView

abbrev pub item_view : Item → ItemView
item_view i = record {
  item_id = i.id;
  section_id = i.section_id;
  name = i.name;
  spoken_name = i.spoken_name;
  description = i.description;
  amount_cents = i.price_cents;
  currency = i.currency;
  weight_g = i.weight_g;
  stock_qty = i.stock_qty;
  available = i.available;
}

-- ORDER BY position, id
abbrev pub section_le : Section → Section → Bool
section_le a b = ltb a.position b.position || (a.position == b.position && leb a.id b.id)

-- A row of `businesses b JOIN business_members bm ON bm.business_id = b.id` of one user.
abbrev pub joined : ℕ → List Member → List Business → List (Business × Member)
joined user members [] = []
joined user members (b ∷ businesses) =
    map (λ m. (b, m)) (select (λ (m : Member). m.business_id == b.id && m.user_sub == user) members)
    ++ joined user members businesses

abbrev pub of_section : ℕ → Item → Bool
of_section id i = i.section_id == id

abbrev pub section_view : List Item → Section → SectionView
section_view items s = record {
  section_id = s.id;
  name = s.name;
  position = s.position;
  items = map item_view (select (of_section s.id) items);
}

module _ (jwt : Jwt) (outside : Outside) where
  open outside use {name_le}

  -- ORDER BY section_id, name
  abbrev pub item_le : Item → Item → Bool
  item_le a b =
      ltb a.section_id b.section_id || (a.section_id == b.section_id && name_le a.name b.name)

  unfoldable pub list_businesses : Head → Api (List (Business × Member))
  list_businesses head = do
    claims ← merchant jwt outside head
    user ← user_id jwt outside claims
    gets (λ s.
        order_by (λ a b. leb a.0.created_at b.0.created_at)
          (joined user s.db.members s.db.businesses))

  unfoldable pub menu_of : ℕ → MerchantDb → List SectionView
  menu_of business db =
      let items = order_by item_le (select (λ (i : Item). i.business_id == business) db.items) in
      map (section_view items)
        (order_by section_le (select (λ (s : Section). s.business_id == business) db.sections))

  unfoldable pub menu : Head → Text → Api (List SectionView)
  unfolding menu_of
  menu head raw = do
    claims ← merchant jwt outside head
    business ← business_id jwt outside raw
    member jwt outside claims business
    gets (λ s. menu_of business s.db)
