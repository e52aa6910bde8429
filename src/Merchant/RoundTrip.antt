-- ===== src/Merchant/RoundTrip.antt =====
-- What an item that was just written looks like in the menu.
use mathlib.Core.Path.{subst}
use drone_dispatch.Merchant.Changes.{item_added}
use drone_dispatch.Merchant.{Outside, Service, Head, ok, Api}
use drone_dispatch.Verifier.{Jwt}
use drone_dispatch.Common.{
  ◌≡◌, ℕ, refl, sym, some, ◌++◌, ◌∷◌, [], Bool-cases, inl, none, arith, ◌∙◌, inr, Option-cases,
}
use drone_dispatch.Text.{Text}
use drone_dispatch.Merchant.Schema.{insert_item, Item, MerchantDb}
use drone_dispatch.Merchant.Edit.{add_item, item_row, create_item}
use drone_dispatch.Merchant.Rows.{ItemInput, item_reply, is_invalid}
use drone_dispatch.Merchant.Menu.{ItemView, menu_of, item_view}
use drone_dispatch.Merchant.Integrity.{Sound, Change-Sound}
use drone_dispatch.Merchant.Lookup.{stored, shown, shown-menu_of}
use drone_dispatch.Merchant.Access.{entered, entered-db, guarded, decided}
use drone_dispatch.Merchant.Columns.{Created, item_row-Created, item_reply-Created}
use drone_dispatch.Common.Table.{find, at, find-append, find_none}

-- An accepted INSERT adds the row, whose id was not in use.
insert_item-eq-some :
    (row : Item) (db db' : MerchantDb)
    → insert_item row db ≡ some db'
    → (db' ≡ record db { items = db.items ++ row ∷ [] })
      × (find (at (λ (i : Item). i.id) row.id) db.items ≡ none)
unfolding insert_item
insert_item-eq-some row db db' e = (ground arith, ground arith)

inserted-shown :
    (jwt : Jwt) (outside : Outside) (row : Item) (db db' : MerchantDb)
    → Sound db
    → insert_item row db ≡ some db'
    → shown row.section_id row.id (menu_of jwt outside row.business_id db') ≡ some (item_view row)
inserted-shown jwt outside row db db' v e =
    let (grown, fresh) = insert_item-eq-some row db db' e in
    let sound = Change-Sound (item_added db db' row refl e) v in
    let kept = stored row.business_id row.section_id row.id in
    ground (
      arith,
      shown-menu_of jwt outside row.business_id row.section_id db' sound row.id,
      grown,
      find-append kept db.items row,
      find_none (at (λ (i : Item). i.id) row.id) kept db.items (λ i h. ground arith) fresh,
    )

module _ (outside : Outside) where
  add_item-eq-ok :
      (id business : ℕ) (input : ItemInput) (s s' : Service) (view : ItemView)
      → add_item outside id business input s ≡ (ok view, s')
      → (insert_item (item_row outside id business input) s.db ≡ some s'.db)
        × (view ≡ item_reply input (item_row outside id business input))
  unfolding add_item
  add_item-eq-ok id business input s s' view e = elim (Bool-cases (is_invalid input)) [
    | inl bad ↦ absurd (ground (arith, bad))
    | inr good ↦ elim (Option-cases (insert_item (item_row outside id business input) s.db)) [
      | inl refused ↦ absurd (ground (arith, good, refused))
      | inr (db, inserted) ↦ (ground (arith, good, inserted), ground (arith, good, inserted))
    ]
  ]

module _ (jwt : Jwt) (outside : Outside) (head : Head) (raw : Text) (id : ℕ) (view : ItemView)
    (s s' : Service) (v : Sound s.db) where
  open outside use {parse_uuid, to_lowercase}

  -- An operation that succeeds behind the checks ran on the tables as they were.
  ran :
      (op : ℕ → Api ItemView)
      → guarded jwt outside head raw op s ≡ (ok view, s')
      → (business : ℕ) × (parse_uuid raw ≡ some business)
        × (op business (entered jwt outside head s) ≡ (ok view, s'))
  ran op e = elim (decided jwt outside head raw op s) [
    | inl (business, granted, runs) ↦ (business, granted.path, sym runs ∙ e)
    | inr (p, refused) ↦ absurd (ground (arith, sym refused ∙ e))
  ]

  start : Service
  start = entered jwt outside head s

  start-Sound : Sound start.db
  unfolding start
  start-Sound = subst Sound (sym (entered-db jwt outside head s)) v

  -- An item that was created is shown by the menu of its business under its section with the values of the
  -- request: its texts trimmed, its currency in lower case, and its spoken name the given one, or the name
  -- where that is missing or blank. The reply shows the same, but for the currency, which it repeats as it
  -- was given.
  pub create_item-shown :
      (input : ItemInput)
      → create_item jwt outside id head raw input s ≡ (ok view, s')
      → (business : ℕ) × (parse_uuid raw ≡ some business)
        × (item : ItemView) × (shown input.section_id id (menu_of jwt outside business s'.db)
            ≡ some item)
        × Created id input (to_lowercase input.currency) item
        × Created id input input.currency view
  unfolding create_item start
  create_item-shown input e =
      let (business, path, runs) = ran (λ b. add_item outside id b input) e in
      let (inserted, reply) = add_item-eq-ok outside id business input start s' view runs in
      (
        business,
        path,
        item_view (item_row outside id business input),
        inserted-shown jwt outside (item_row outside id business input) start.db s'.db start-Sound
            inserted,
        item_row-Created outside id business input,
        subst (Created id input input.currency) (sym reply)
            (item_reply-Created outside id business input),
      )
