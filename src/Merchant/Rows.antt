-- ===== src/Merchant/Rows.antt =====
-- services/merchant-service/src/api.rs: the rows that its INSERT and UPDATE statements write, and the guards on
-- what a request asks for.
use drone_dispatch.Common.{
  ℕ, List, Option, Bool, unwrap_or, none, ◌∷◌, some, ◌||◌, and_then, is_some, if◌then◌else◌, ltb,
  any, not, ◌&&◌, ◌==◌, ◌+◌, [], is_some_and,
}
use drone_dispatch.Merchant.{bad_request}
use drone_dispatch.Merchant.Schema.{Section, Item, MerchantDb, valid_item, is_item}
use drone_dispatch.Merchant.Menu.{ItemView, item_view}
use drone_dispatch.Text.{Text, trim, is_empty}
use drone_dispatch.Verifier.Extract.{Problem}
use drone_dispatch.Common.Int.{ℤ, ltb_ℤ, pos, leb_ℤ}
use drone_dispatch.Common.Table.{update, find}

-- SELECT max(position) ... WHERE business_id = $1
unfoldable pub max_position : ℕ → List Section → Option ℕ
max_position business [] = none
max_position business (s ∷ t) =
    let rest = max_position business t in
    if s.business_id == business
    then some
        (elim rest [ none ↦ s.position | some m ↦ if ltb m s.position then s.position else m ])
    else rest

-- COALESCE(max(position), -1) + 1, which fails where it is no `integer`.
unfoldable pub next_position : ℕ → List Section → Option ℕ
unfolding max_position
next_position business sections = elim (max_position business sections) [
  | none ↦ some 0
  | some m ↦ if ltb m 2147483647 then some (m + 1) else none
]

pub record ItemInput : Type 0 where
  pub section_id : ℕ
  pub name : Text
  pub spoken_name : Option Text
  pub description : Text
  pub amount_cents : ℤ
  pub currency : Text
  pub weight_g : ℤ
  pub stock_qty : Option ℤ
  pub available : Bool

-- The guard of `create_item`.
unfoldable pub is_invalid : ItemInput → Bool
is_invalid input =
    is_empty (trim input.name)
    || ltb_ℤ input.amount_cents (pos 0)
    || leb_ℤ input.weight_g (pos 0)
    || is_some_and input.stock_qty (λ qty. ltb_ℤ qty (pos 0))

-- `spoken_name.trim()`, filtered by `!is_empty()`, or the name.
unfoldable pub spoken_or_name : ItemInput → Text
spoken_or_name input =
    unwrap_or (and_then input.spoken_name (λ s. if is_empty (trim s) then none else some (trim s)))
      (trim input.name)

-- The assignments of the UPDATE: `none` leaves a column as it is.
pub record Patch : Type 0 where
  pub name : Option Text
  pub spoken_name : Option Text
  pub description : Option Text
  pub price_cents : Option ℤ
  pub weight_g : Option ℤ
  pub stock_qty : Option (Option ℤ)
  pub available : Option Bool

abbrev pub apply : Patch → Item → Item
apply p i = record i {
  name = unwrap_or p.name i.name;
  spoken_name = unwrap_or p.spoken_name i.spoken_name;
  description = unwrap_or p.description i.description;
  price_cents = unwrap_or p.price_cents i.price_cents;
  weight_g = unwrap_or p.weight_g i.weight_g;
  stock_qty = unwrap_or p.stock_qty i.stock_qty;
  available = unwrap_or p.available i.available;
}

-- `text::type` of a value that may be NULL; the outer `none` is a failed cast.
abbrev pub cast : {A : Type 0} → (Text → Option A) → Option Text → Option (Option A)
cast parse none = some none
cast parse (some t) = and_then (parse t) (λ a. some (some a))

abbrev pub invalid_update : Problem
invalid_update = bad_request "Invalid menu item update" "INVALID_MENU_ITEM"

abbrev pub missing_item : Problem
missing_item = record {
  status = 404;
  title = "Menu item not found";
  reason = none;
  www_authenticate = none;
}

abbrev pub section_row : ℕ → ℕ → Text → ℕ → Section
section_row id business name position = record {
  id = id;
  business_id = business;
  name = name;
  position = position;
}

abbrev pub invalid_name : Problem
invalid_name = bad_request "Section name is required" "INVALID_NAME"

abbrev pub invalid_item : Problem
invalid_item = bad_request "Invalid menu item" "INVALID_MENU_ITEM"

abbrev pub invalid_section : Problem
invalid_section = bad_request "The menu section does not belong to this business" "INVALID_SECTION"

-- The reply to `create_item` repeats the currency as it was given.
abbrev pub item_reply : ItemInput → Item → ItemView
item_reply input i = record (item_view i) { currency = input.currency }

abbrev pub present : ℕ → ℕ → MerchantDb → Bool
present business id db = is_some (find (is_item business id) db.items)

-- The new rows must pass the CHECKs of the table.
abbrev pub patched : ℕ → ℕ → Patch → MerchantDb → Option MerchantDb
patched business id p db =
    let items = update (is_item business id) (apply p) db.items in
    if any (λ i. is_item business id i && not (valid_item i)) items
    then none
    else some (record db { items = items })
