-- ===== src/Merchant/Schema.antt =====
-- The tables of merchant-service that its API reads and writes (services/merchant-service/migrations),
-- with the columns that it uses and the constraints that its statements can violate.
use drone_dispatch.Common.{
  ℕ, Bool, not, ◌&&◌, ◌||◌, Option, none, some, List, [], ◌∷◌, ◌++◌, ◌==◌, if◌then◌else◌, is_some,
  is_none_or,
}
use drone_dispatch.Common.Int.{ℤ, pos, leb_ℤ, ltb_ℤ}
use drone_dispatch.Common.Table.{find, at}
use drone_dispatch.Text.{Text, is_empty}

-- A `double precision` is its bit pattern, which the API only copies.
pub record Business : Type 0 where
  pub id : ℕ
  pub name : Text
  pub address : Text
  pub lat : ℕ
  pub lon : ℕ
  pub status : Text
  pub accepting_orders : Bool
  pub payments_enabled : Bool
  pub prep_time_minutes : ℕ
  pub created_at : ℕ

pub record Member : Type 0 where
  pub business_id : ℕ
  pub user_sub : ℕ
  pub role : Text

-- The column `position` is an `integer` that its CHECK keeps from being negative.
pub record Section : Type 0 where
  pub id : ℕ
  pub business_id : ℕ
  pub name : Text
  pub position : ℕ

pub record Item : Type 0 where
  pub id : ℕ
  pub business_id : ℕ
  pub section_id : ℕ
  pub name : Text
  pub spoken_name : Text
  pub description : Text
  pub price_cents : ℤ
  pub currency : Text
  pub weight_g : ℤ
  pub stock_qty : Option ℤ
  pub available : Bool

pub record MerchantDb : Type 0 where
  pub businesses : List Business
  pub members : List Member
  pub sections : List Section
  pub items : List Item

-- The CHECK constraints of `menu_items`.
unfoldable pub valid_item : Item → Bool
valid_item i =
    not (is_empty i.name)
    && not (is_empty i.spoken_name)
    && leb_ℤ (pos 0) i.price_cents
    && ltb_ℤ (pos 0) i.weight_g
    && is_none_or i.stock_qty (λ qty. leb_ℤ (pos 0) qty)

abbrev pub has_business : ℕ → List Business → Bool
has_business id businesses = is_some (find (at (λ (b : Business). b.id) id) businesses)

abbrev pub is_section : ℕ → ℕ → Section → Bool
is_section business id s = s.business_id == business && s.id == id

abbrev pub is_at_position : ℕ → ℕ → Section → Bool
is_at_position business position s = s.business_id == business && s.position == position

abbrev pub is_item : ℕ → ℕ → Item → Bool
is_item business id i = i.business_id == business && i.id == id

-- INSERT INTO menu_sections: refused for a known id, a taken position, an unknown business or an empty
-- name.
unfoldable pub insert_section : Section → MerchantDb → Option MerchantDb
insert_section s db =
    if is_some (find (at (λ (r : Section). r.id) s.id) db.sections)
      || is_some (find (is_at_position s.business_id s.position) db.sections)
      || not (has_business s.business_id db.businesses)
      || is_empty s.name
    then none
    else some (record db { sections = db.sections ++ s ∷ [] })

-- INSERT INTO menu_items: refused for a known id, a row that fails a CHECK, an unknown business, or a
-- section that the business does not have.
unfoldable pub insert_item : Item → MerchantDb → Option MerchantDb
unfolding valid_item
insert_item i db =
    if is_some (find (at (λ (r : Item). r.id) i.id) db.items)
      || not (valid_item i)
      || not (has_business i.business_id db.businesses)
      || not (is_some (find (is_section i.business_id i.section_id) db.sections))
    then none
    else some (record db { items = db.items ++ i ∷ [] })
