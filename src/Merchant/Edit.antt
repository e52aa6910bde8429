-- ===== src/Merchant/Edit.antt =====
-- services/merchant-service/src/api.rs: the operations that change a menu.
use drone_dispatch.Common.{
  ℕ, Option, Bool, none, some, and_then, is_some, if◌then◌else◌, not, ◌&&◌, [],
}
use drone_dispatch.Common.Exec.{◌>>=◌, ◌>>◌, ok, reject_if, lift, fail, gets, pure, err, ok_or}
use drone_dispatch.Merchant.{Outside, Api, database_error, Head, merchant, business_id, member}
use drone_dispatch.Merchant.Schema.{Item, MerchantDb, is_item, insert_section, insert_item}
use drone_dispatch.Merchant.Menu.{ItemView, SectionView, item_view}
use drone_dispatch.Text.{Text, text, trim, is_empty}
use drone_dispatch.Verifier.{Jwt}
use drone_dispatch.Verifier.Extract.{Problem, not_implemented}
use drone_dispatch.Common.Table.{find}
use drone_dispatch.Merchant.Rows.{
  ItemInput, Patch, cast, invalid_item, invalid_name, invalid_section, invalid_update, is_invalid,
  item_reply, missing_item, next_position, patched, present, section_row, spoken_or_name,
}

abbrev pub set_db : MerchantDb → Api (Unit {0})
set_db db s = (ok tt, record s { db = db })

-- An INSERT, with `error` where it is refused.
abbrev pub change : (MerchantDb → Option MerchantDb) → Problem → Api (Unit {0})
change f error s = elim (f s.db) [ none ↦ fail error s | some db ↦ set_db db s ]

-- The statements of `create_section` once the business is known.
unfoldable pub add_section : ℕ → ℕ → Text → Api SectionView
unfolding next_position
add_section id business name = do
  reject_if (is_empty name) invalid_name
  next ← gets (λ s. next_position business s.db.sections)
  position ← ok_or next database_error
  change (insert_section (section_row id business name position)) database_error
  pure (record { section_id = id; name = name; position = position; items = [] })

module _ (outside : Outside) where
  open outside use {
    Value, field_text, field, has_key, to_bigint, to_integer, to_boolean, to_lowercase,
  }

  abbrev pub item_row : ℕ → ℕ → ItemInput → Item
  item_row id business input = record {
    id = id;
    business_id = business;
    section_id = input.section_id;
    name = trim input.name;
    spoken_name = spoken_or_name input;
    description = trim input.description;
    price_cents = input.amount_cents;
    currency = to_lowercase input.currency;
    weight_g = input.weight_g;
    stock_qty = input.stock_qty;
    available = input.available;
  }

  unfoldable pub add_item : ℕ → ℕ → ItemInput → Api ItemView
  unfolding is_invalid spoken_or_name
  add_item id business input = do
    reject_if (is_invalid input) invalid_item
    change (insert_item (item_row id business input)) invalid_section
    pure (item_reply input (item_row id business input))

  -- The casts of the UPDATE; `none` where one of them fails.
  unfoldable pub patch_of : Value → Option Patch
  patch_of input =
      and_then
        (cast to_bigint
          (and_then (field input (text "price")) (λ p. field_text p (text "amount_cents"))))
        (λ price. and_then (cast to_integer (field_text input (text "weight_g"))) (λ weight.
          and_then
            (if has_key input (text "stock_qty")
              then and_then (cast to_integer (field_text input (text "stock_qty")))
                  (λ q. some (some q))
              else some none)
            (λ stock. and_then (cast to_boolean (field_text input (text "available"))) (λ available.
              some (record {
                name = field_text input (text "name");
                spoken_name = field_text input (text "spoken_name");
                description = field_text input (text "description");
                price_cents = price;
                weight_g = weight;
                stock_qty = stock;
                available = available;
              })))))

  -- UPDATE menu_items: `folds` says whether Postgres evaluates the casts while it plans, so that a
  -- failing one is an error also where no row matches.
  unfoldable pub update_row : (folds : Bool) → ℕ → ℕ → Value → MerchantDb → Option MerchantDb
  unfolding patch_of
  update_row folds business id input db =
      if present business id db
      then and_then (patch_of input) (λ p. patched business id p db)
      else if folds && not (is_some (patch_of input))
      then none
      else some db

  unfoldable pub save_item : Bool → ℕ → ℕ → Value → Api ItemView
  unfolding update_row
  save_item folds business id input = do
    known ← gets (λ s. present business id s.db)
    change (update_row folds business id input) invalid_update
    reject_if (not known) missing_item
    row ← gets (λ s. find (is_item business id) s.db.items)
    item ← ok_or row database_error
    pure (item_view item)

module _ (jwt : Jwt) (outside : Outside) where
  open outside use {Value}

  -- `id` is the `Uuid::now_v7()` of the request.
  unfoldable pub create_section : (id : ℕ) → Head → Text → Text → Api SectionView
  unfolding add_section
  create_section id head raw name = do
    claims ← merchant jwt outside head
    business ← business_id jwt outside raw
    member jwt outside claims business
    add_section id business (trim name)

  unfoldable pub create_item : (id : ℕ) → Head → Text → ItemInput → Api ItemView
  unfolding add_item
  create_item id head raw input = do
    claims ← merchant jwt outside head
    business ← business_id jwt outside raw
    member jwt outside claims business
    add_item outside id business input

  unfoldable pub update_item : Bool → Head → Text → ℕ → Value → Api ItemView
  unfolding save_item
  update_item folds head raw id input = do
    claims ← merchant jwt outside head
    business ← business_id jwt outside raw
    member jwt outside claims business
    save_item outside folds business id input

  unfoldable pub pending : Head → Api (Unit {0})
  pending head = do claims ← merchant jwt outside head; lift (err not_implemented)
