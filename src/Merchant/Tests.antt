-- ===== src/Merchant/Tests.antt =====
-- Requests of a member and of a stranger, at a business with an empty menu.
use mathlib.Core.Option
use mathlib.Core.Path.{subst}
use drone_dispatch.Common.{◌≡◌, ◌≢◌, ℕ, none, some, refl, ap, [], ◌∷◌, arith, List, true}
use drone_dispatch.Common.Exec.{ok, err}
use drone_dispatch.Common.Int.{pos}
use drone_dispatch.Text.{Text, text, split, trim, split_once, same, is_whitespace}
use drone_dispatch.Merchant.{user_id, Head, merchant, business_id, member, access_denied}
use drone_dispatch.Verifier.{verify, key, reload, has_scope}
use drone_dispatch.Verifier.Extract.{
  rejection, unauthorized, problem, into_response, require_scope, authenticated, bearer_token,
  challenge_unauthorized,
}
use drone_dispatch.Verifier.Fixture.{jwt}
use drone_dispatch.Merchant.Fixture.{outside, empty_db, service_of, signed_in, coffee, Fields}
use drone_dispatch.Merchant.Lookup.{columns, stored, shown, shown-menu_of}
use drone_dispatch.Merchant.Requests.{
  section_created, item_created, serve, run, item, section, Request, path_business,
}
use drone_dispatch.Merchant.Schema.{
  MerchantDb, Section, Item, insert_section, insert_item, valid_item,
}
use drone_dispatch.Common.Table.{count, find, select, update}
use drone_dispatch.Merchant.Menu.{SectionView, menu_of, item_view, menu, ItemView}
use drone_dispatch.Merchant.Edit.{
  create_item, create_section, patch_of, update_item, add_section, add_item, save_item, update_row,
}
use drone_dispatch.Merchant.Rows.{
  section_row, is_invalid, spoken_or_name, next_position, max_position,
}
use drone_dispatch.Merchant.Integrity.{Sound, MayChange-Sound}
use drone_dispatch.Merchant.Changes.{Served, serve-Served}
use drone_dispatch.Merchant.Positions.{Numbered}
use drone_dispatch.Merchant.Integrity.Runs.{run-Sound, serve-MayChange}
use drone_dispatch.Merchant.Access.{Granted}
use drone_dispatch.Merchant.Isolation.{menu_of-serve}
use drone_dispatch.Merchant.Columns.{Created}
use drone_dispatch.Merchant.RoundTrip.{create_item-shown}
use drone_dispatch.Common.Sorting.{insert_row, order_by}
use drone_dispatch.Text.Ascii.{eq_ignore_ascii_case, to_ascii_lowercase}

abbrev drinks : Request outside
drinks = section_created 70 (text "bb") (text " Drinks ")

abbrev drinks_row : Section
drinks_row = section_row 70 2 (text "Drinks") 0

abbrev with_drinks : MerchantDb
with_drinks = record empty_db { sections = drinks_row ∷ [] }

drinks_view : SectionView
drinks_view = record { section_id = 70; name = text "Drinks"; position = 0; items = [] }

drinks_added :
    serve jwt outside signed_in drinks (service_of empty_db)
    ≡ (ok (section drinks_view), service_of with_drinks)
unfolding drinks_view serve create_item create_section update_item menu add_section add_item
    save_item update_row patch_of menu_of merchant user_id business_id member insert_section
    insert_item valid_item is_invalid spoken_or_name next_position max_position authenticated
    bearer_token require_scope has_scope split verify key reload find count select update insert_row
    order_by trim split_once eq_ignore_ascii_case to_ascii_lowercase same is_whitespace
    drone_dispatch.Text.contains path_business run rejection unauthorized into_response
    challenge_unauthorized problem
drinks_added = refl

abbrev coffee_row : Item
coffee_row = record {
  id = 80;
  business_id = 2;
  section_id = 70;
  name = text "Coffee";
  spoken_name = text "Coffee";
  description = [];
  price_cents = pos 300;
  currency = text "usd";
  weight_g = pos 250;
  stock_qty = none;
  available = true;
}

abbrev with_coffee : MerchantDb
with_coffee = record with_drinks { items = coffee_row ∷ [] }

coffee_added :
    create_item jwt outside 80 signed_in (text "bb") coffee (service_of with_drinks)
    ≡ (ok (item_view coffee_row), service_of with_coffee)
unfolding serve create_item create_section update_item menu add_section add_item save_item
    update_row patch_of menu_of merchant user_id business_id member insert_section insert_item
    valid_item is_invalid spoken_or_name next_position max_position authenticated bearer_token
    require_scope has_scope split verify key reload find count select update insert_row order_by
    trim split_once eq_ignore_ascii_case to_ascii_lowercase same is_whitespace
    drone_dispatch.Text.contains path_business run rejection unauthorized into_response
    challenge_unauthorized problem
coffee_added = refl

-- A body that changes the price and takes the item out of stock control.
abbrev cheaper : Fields
cheaper = (text "amount_cents", text "250") ∷ []

abbrev cheap_row : Item
cheap_row = record coffee_row { price_cents = pos 250 }

stranger_is_refused :
    (serve jwt outside signed_in drinks (service_of (record empty_db { members = [] }))).0
    ≡ err access_denied
unfolding serve create_item create_section update_item menu add_section add_item save_item
    update_row patch_of menu_of merchant user_id business_id member insert_section insert_item
    valid_item is_invalid spoken_or_name next_position max_position authenticated bearer_token
    require_scope has_scope split verify key reload find count select update insert_row order_by
    trim split_once eq_ignore_ascii_case to_ascii_lowercase same is_whitespace
    drone_dispatch.Text.contains path_business run rejection unauthorized into_response
    challenge_unauthorized problem
stranger_is_refused = refl

Numbered-nil : Numbered []
unfolding count
Numbered-nil business k = ground arith

empty_db-Sound : Sound empty_db
unfolding count find
empty_db-Sound = record {
  section_ids = λ id. omega arith;
  item_ids = λ id. omega arith;
  numbered = Numbered-nil;
  housed = λ business section e. refl;
  valid = refl;
}

abbrev history : List (Head × Request outside)
history = (signed_in, drinks) ∷ (signed_in, item_created 80 (text "bb") coffee) ∷ []

run-Sound_example : Sound (run jwt outside (service_of empty_db) history).db
run-Sound_example = run-Sound jwt outside history (service_of empty_db) empty_db-Sound

with_drinks-Sound : Sound with_drinks
with_drinks-Sound = subst Sound (ap (λ r. r.1.db) drinks_added) (
    MayChange-Sound (serve-MayChange jwt outside signed_in drinks (service_of empty_db)).1
      empty_db-Sound)

path_of_drinks : path_business outside drinks ≡ some (text "bb")
unfolding path_business
path_of_drinks = refl

serve-Served_example :
    Served jwt outside signed_in
      (text "bb")
      (service_of empty_db)
      (serve jwt outside signed_in drinks (service_of empty_db))
serve-Served_example =
    serve-Served jwt outside signed_in drinks (text "bb") (service_of empty_db) path_of_drinks

-- The menu before and after the first section differ.
menu_grows :
    menu_of jwt outside 2 (serve jwt outside signed_in drinks (service_of empty_db)).1.db
    ≢ menu_of jwt outside 2 empty_db
unfolding serve create_item create_section update_item menu add_section add_item save_item
    update_row patch_of menu_of merchant user_id business_id member insert_section insert_item
    valid_item is_invalid spoken_or_name next_position max_position authenticated bearer_token
    require_scope has_scope split verify key reload find count select update insert_row order_by
    trim split_once eq_ignore_ascii_case to_ascii_lowercase same is_whitespace
    drone_dispatch.Text.contains path_business run rejection unauthorized into_response
    challenge_unauthorized problem
menu_grows e = cc

menu_of-serve_example :
    (raw : Text) × (path_business outside drinks ≡ some raw)
    × Granted jwt outside signed_in raw 2 (service_of empty_db)
menu_of-serve_example =
    menu_of-serve jwt outside signed_in drinks (service_of empty_db) 2 menu_grows

create_item-shown_example :
    (business : ℕ) × (outside.parse_uuid (text "bb") ≡ some business)
    × (item : ItemView) × (shown 70 80 (menu_of jwt outside business with_coffee) ≡ some item)
    × Created 80 coffee (outside.to_lowercase coffee.currency) item
    × Created 80 coffee coffee.currency (item_view coffee_row)
create_item-shown_example =
    create_item-shown jwt outside signed_in (text "bb") 80 (item_view coffee_row)
      (service_of with_drinks) (service_of with_coffee) with_drinks-Sound coffee coffee_added

with_coffee-Sound : Sound with_coffee
unfolding serve create_item create_section update_item menu add_section add_item save_item
    update_row patch_of menu_of merchant user_id business_id member insert_section insert_item
    valid_item is_invalid spoken_or_name next_position max_position authenticated bearer_token
    require_scope has_scope split verify key reload find count select update insert_row order_by
    trim split_once eq_ignore_ascii_case to_ascii_lowercase same is_whitespace
    drone_dispatch.Text.contains path_business run rejection unauthorized into_response
    challenge_unauthorized problem
with_coffee-Sound = subst Sound (ap (λ r. r.1.db) coffee_served) (
    MayChange-Sound
      (serve-MayChange jwt outside signed_in (item_created 80 (text "bb") coffee)
        (service_of with_drinks)).1
      with_drinks-Sound)
  where
    coffee_served :
        serve jwt outside signed_in (item_created 80 (text "bb") coffee) (service_of with_drinks)
        ≡ (ok (item (item_view coffee_row)), service_of with_coffee)
    coffee_served = refl

shown-menu_of_example :
    shown 70 80 (menu_of jwt outside 2 with_coffee)
    ≡ Option.map columns (find (stored 2 70 80) with_coffee.items)
shown-menu_of_example = shown-menu_of jwt outside 2 70 with_coffee with_coffee-Sound 80
