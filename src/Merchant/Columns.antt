-- ===== src/Merchant/Columns.antt =====
-- What an item looks like that was created, or updated, from a request's values.
use drone_dispatch.Common.{
  ◌≡◌, ◌≢◌, ◌⊎◌, inl, inr, ℕ, Bool, true, false, Option, none, some, [], ◌∷◌, arith, refl, and_then,
  unwrap_or, if◌then◌else◌, Option-cases,
}
use drone_dispatch.Common.Int.{ℤ}
use drone_dispatch.Merchant.{Outside}
use drone_dispatch.Merchant.Schema.{Item}
use drone_dispatch.Merchant.Rows.{ItemInput, Patch, cast, apply, item_reply, spoken_or_name}
use drone_dispatch.Merchant.Edit.{item_row, patch_of}
use drone_dispatch.Merchant.Menu.{ItemView, item_view}
use drone_dispatch.Text.{Text, text, trim, is_empty}

-- The spoken name of a new item is the given one, trimmed, if it is not blank, and the name otherwise.
abbrev pub SpokenAs : Option Text → Text → Text → Type 0
SpokenAs none name spoken = spoken ≡ name
SpokenAs (some given) name spoken =
    ((trim given ≡ []) × (spoken ≡ name)) ⊎ ((trim given ≢ []) × (spoken ≡ trim given))

-- An item with the values of a request to create one.
pub record Created (id : ℕ) (input : ItemInput) (currency : Text) (v : ItemView) : Type 0 where
  pub has_id : v.item_id ≡ id
  pub in_section : v.section_id ≡ input.section_id
  pub trimmed_name : v.name ≡ trim input.name
  pub spoken_as : SpokenAs input.spoken_name (trim input.name) v.spoken_name
  pub trimmed_description : v.description ≡ trim input.description
  pub has_price : v.amount_cents ≡ input.amount_cents
  pub has_currency : v.currency ≡ currency
  pub has_weight : v.weight_g ≡ input.weight_g
  pub has_stock : v.stock_qty ≡ input.stock_qty
  pub is_available : v.available ≡ input.available

filled_or :
    (t name : Text)
    → ((t ≡ []) × (unwrap_or (if is_empty t then none else some t) name ≡ name))
      ⊎ ((t ≢ []) × (unwrap_or (if is_empty t then none else some t) name ≡ t))
filled_or [] name = inl (refl, refl)
filled_or (c ∷ t) name = inr (λ e. cc, refl)

spoken-SpokenAs :
    (given : Option Text) (name : Text)
    → SpokenAs given name
        (unwrap_or (and_then given (λ s. if is_empty (trim s) then none else some (trim s))) name)
spoken-SpokenAs none name = refl
spoken-SpokenAs (some s) name = filled_or (trim s) name

module _ (outside : Outside) where
  pub item_row-Created :
      (id business : ℕ) (input : ItemInput)
      → Created id input
          (outside.to_lowercase input.currency)
          (item_view (item_row outside id business input))
  unfolding spoken_or_name
  item_row-Created id business input = record {
    has_id = refl;
    in_section = refl;
    trimmed_name = refl;
    spoken_as = spoken-SpokenAs input.spoken_name (trim input.name);
    trimmed_description = refl;
    has_price = refl;
    has_currency = refl;
    has_weight = refl;
    has_stock = refl;
    is_available = refl;
  }

  pub item_reply-Created :
      (id business : ℕ) (input : ItemInput)
      → Created id input input.currency (item_reply input (item_row outside id business input))
  unfolding spoken_or_name
  item_reply-Created id business input = record {
    has_id = refl;
    in_section = refl;
    trimmed_name = refl;
    spoken_as = spoken-SpokenAs input.spoken_name (trim input.name);
    trimmed_description = refl;
    has_price = refl;
    has_currency = refl;
    has_weight = refl;
    has_stock = refl;
    is_available = refl;
  }

-- A column whose value is read from a text that the body gives; without one it keeps its value.
abbrev pub ReadAs : {A : Type 0} → (Text → Option A) → Option Text → A → A → Type 0
ReadAs parse none old new = new ≡ old
ReadAs parse (some t) old new = parse t ≡ some new

-- The stock changes where the body has the key; a JSON null there clears it.
abbrev pub StockAs : (Text → Option ℤ) → Bool → Option Text → Option ℤ → Option ℤ → Type 0
StockAs parse false given old new = new ≡ old
StockAs parse true none old new = new ≡ none
StockAs parse true (some t) old new = (qty : ℤ) × (parse t ≡ some qty) × (new ≡ some qty)

cast-ReadAs :
    {A : Type 0}
    → (parse : Text → Option A) (given : Option Text) (c : Option A) (old : A)
    → cast parse given ≡ some c
    → ReadAs parse given old (unwrap_or c old)
cast-ReadAs parse none c old e = ground arith
cast-ReadAs parse (some t) c old e = elim (Option-cases (parse t)) [
  | inl bad ↦ absurd (ground (arith, bad))
  | inr (a, read) ↦ ground (arith, read)
]

given-ReadAs : (given : Option Text) (old : Text) → ReadAs some given old (unwrap_or given old)
given-ReadAs none old = refl
given-ReadAs (some t) old = refl

cast-StockAs :
    (parse : Text → Option ℤ) (has : Bool) (given : Option Text) (c : Option (Option ℤ))
    (old : Option ℤ)
    → (if has then and_then (cast parse given) (λ q. some (some q)) else some none) ≡ some c
    → StockAs parse has given old (unwrap_or c old)
cast-StockAs parse false given c old e = ground arith
cast-StockAs parse true none c old e = ground arith
cast-StockAs parse true (some t) c old e = elim (Option-cases (parse t)) [
  | inl bad ↦ absurd (ground (arith, bad))
  | inr (a, read) ↦ (a, read, ground (arith, read))
]

module _ (outside : Outside) where
  open outside use {Value, field_text, field, has_key, to_bigint, to_integer, to_boolean}

  abbrev price_text : Value → Option Text
  price_text input = and_then (field input (text "price")) (λ p. field_text p (text "amount_cents"))

  -- A row after an update with the values of a JSON body.
  pub record Updated (input : Value) (row : Item) (v : ItemView) : Type 0 where
    pub same_id : v.item_id ≡ row.id
    pub same_section : v.section_id ≡ row.section_id
    pub same_currency : v.currency ≡ row.currency
    pub name_as : ReadAs some (field_text input (text "name")) row.name v.name
    pub spoken_as :
        ReadAs some (field_text input (text "spoken_name")) row.spoken_name v.spoken_name
    pub description_as :
        ReadAs some (field_text input (text "description")) row.description v.description
    pub price_as : ReadAs to_bigint (price_text input) row.price_cents v.amount_cents
    pub weight_as : ReadAs to_integer (field_text input (text "weight_g")) row.weight_g v.weight_g
    pub stock_as :
        StockAs to_integer
          (has_key input (text "stock_qty"))
          (field_text input (text "stock_qty"))
          row.stock_qty
          v.stock_qty
    pub available_as :
        ReadAs to_boolean (field_text input (text "available")) row.available v.available

  read_parts :
      (input : Value) (p : Patch)
      → patch_of outside input ≡ some p
      → (cast to_bigint (price_text input) ≡ some p.price_cents)
        × (cast to_integer (field_text input (text "weight_g")) ≡ some p.weight_g)
        × ((if has_key input (text "stock_qty")
              then and_then
                  (cast to_integer (field_text input (text "stock_qty")))
                  (λ q. some (some q))
              else some none)
            ≡ some p.stock_qty)
        × (cast to_boolean (field_text input (text "available")) ≡ some p.available)
        × (p.name ≡ field_text input (text "name"))
        × (p.spoken_name ≡ field_text input (text "spoken_name"))
        × (p.description ≡ field_text input (text "description"))
  unfolding patch_of
  read_parts input p e =
      let stock =
        if has_key input (text "stock_qty")
        then and_then (cast to_integer (field_text input (text "stock_qty"))) (λ q. some (some q))
        else some none in
      elim (Option-cases (cast to_bigint (price_text input))) [
        | inl bad ↦ absurd (ground (arith, bad))
        | inr (price, a) ↦
            elim (Option-cases (cast to_integer (field_text input (text "weight_g")))) [
              | inl bad ↦ absurd (ground (arith, a, bad))
              | inr (weight, b) ↦ elim (Option-cases stock) [
                | inl bad ↦ absurd (ground (arith, a, b, bad))
                | inr (qty, c) ↦
                    elim (Option-cases (cast to_boolean (field_text input (text "available")))) [
                      | inl bad ↦ absurd (ground (arith, a, b, c, bad))
                      | inr (available, d) ↦ ground (arith, a, b, c, d)
                    ]
              ]
            ]
      ]

  pub patch_of-Updated :
      (input : Value) (p : Patch) (row : Item)
      → patch_of outside input ≡ some p
      → Updated input row (item_view (apply p row))
  patch_of-Updated input p row e =
      let (price, weight, stock, available, name, spoken, description) = read_parts input p e in
      record {
        same_id = refl;
        same_section = refl;
        same_currency = refl;
        name_as = rw name (given-ReadAs (field_text input (text "name")) row.name);
        spoken_as =
            rw spoken (given-ReadAs (field_text input (text "spoken_name")) row.spoken_name);
        description_as =
            rw description (given-ReadAs (field_text input (text "description")) row.description);
        price_as = cast-ReadAs to_bigint (price_text input) p.price_cents row.price_cents price;
        weight_as =
            cast-ReadAs to_integer (field_text input (text "weight_g")) p.weight_g row.weight_g
              weight;
        stock_as =
            cast-StockAs to_integer (has_key input (text "stock_qty"))
              (field_text input (text "stock_qty")) p.stock_qty row.stock_qty stock;
        available_as =
            cast-ReadAs to_boolean (field_text input (text "available")) p.available row.available
              available;
      }
