-- ===== src/Merchant/Changes.antt =====
-- What a request of the merchant API may do to the database: an abstract step for each kind of row
-- that it writes.
use mathlib.Core.Path.{subst}
use drone_dispatch.Common.{
  refl, ◌≡◌, ℕ, ◌⊎◌, some, Bool-cases, Option-cases, inl, arith, inr, Bool, ap, ◌∙◌, sym,
}
use drone_dispatch.Merchant.Schema.{MerchantDb, Section, insert_section, Item, insert_item}
use drone_dispatch.Verifier.{Jwt}
use drone_dispatch.Merchant.{Outside, Service, Head, Api}
use drone_dispatch.Verifier.Extract.{Problem}
use drone_dispatch.Merchant.Edit.{
  add_section, add_item, item_row, update_row, save_item, patch_of, create_section, create_item,
  update_item,
}
use drone_dispatch.Merchant.Rows.{
  next_position, ItemInput, is_invalid, Patch, patched, section_row, present,
}
use drone_dispatch.Text.{Text, is_empty, trim}
use drone_dispatch.Common.Exec.{Result, err, ◌>>=◌, pure, gets, continue}
use drone_dispatch.Merchant.Requests.{
  business_list, menu_read, section_created, item_created, item_updated, other, Reply, serve,
  path_business, Request, sections, section, item,
}
use drone_dispatch.Merchant.Access.{Granted, guarded, decided, entered, entered-db}
use drone_dispatch.Common.Exec.Inversion.{continue-pure}
use drone_dispatch.Merchant.Menu.{menu, menu_of}

pub data Change (business : ℕ) : MerchantDb → MerchantDb → Type 0 where
  section_added :
      (db db' : MerchantDb) (row : Section)
      → row.business_id ≡ business
      → next_position business db.sections ≡ some row.position
      → insert_section row db ≡ some db'
      → Change business db db'
  item_added :
      (db db' : MerchantDb) (row : Item)
      → row.business_id ≡ business
      → insert_item row db ≡ some db'
      → Change business db db'
  item_patched :
      (db db' : MerchantDb) (id : ℕ) (p : Patch)
      → patched business id p db ≡ some db'
      → Change business db db'

abbrev pub MayChange : ℕ → MerchantDb → MerchantDb → Type 0
MayChange business db db' = (db' ≡ db) ⊎ Change business db db'

add_section-MayChange :
    (id business : ℕ) (name : Text) (s : Service)
    → MayChange business s.db (add_section id business name s).1.db
unfolding add_section
add_section-MayChange id business name s = elim (Bool-cases (is_empty name)) [
  | inl empty ↦ inl (ground (arith, empty))
  | inr named ↦ elim (Option-cases (next_position business s.db.sections)) [
    | inl full ↦ inl (ground (arith, named, full))
    | inr (position, next) ↦
        elim (Option-cases (insert_section (section_row id business name position) s.db)) [
          | inl refused ↦ inl (ground (arith, named, next, refused))
          | inr (db, inserted) ↦ inr (
              section_added _ _ (section_row id business name position) refl next
                (ground (arith, named, next, inserted)))
        ]
  ]
]

module _ (outside : Outside) where
  add_item-MayChange :
      (id business : ℕ) (input : ItemInput) (s : Service)
      → MayChange business s.db (add_item outside id business input s).1.db
  unfolding add_item
  add_item-MayChange id business input s = elim (Bool-cases (is_invalid input)) [
    | inl bad ↦ inl (ground (arith, bad))
    | inr good ↦ elim (Option-cases (insert_item (item_row outside id business input) s.db)) [
      | inl refused ↦ inl (ground (arith, good, refused))
      | inr (db, inserted) ↦ inr (
          item_added _ _ (item_row outside id business input) refl (ground (arith, good, inserted)))
    ]
  ]

  update_row-MayChange :
      (folds : Bool) (business id : ℕ) (input : outside.Value) (db db' : MerchantDb)
      → update_row outside folds business id input db ≡ some db'
      → MayChange business db db'
  unfolding update_row
  update_row-MayChange folds business id input db db' e =
      elim (Bool-cases (present business id db)) [
        | inl there ↦ elim (Option-cases (patch_of outside input)) [
          | inl bad ↦ absurd (ground (arith, there, bad))
          | inr (p, read) ↦ inr (item_patched _ _ id p (ground (arith, there, read)))
        ]
        | inr missing ↦ inl (ground (arith, missing))
      ]

  save_item-MayChange :
      (folds : Bool) (business id : ℕ) (input : outside.Value) (s : Service)
      → MayChange business s.db (save_item outside folds business id input s).1.db
  unfolding save_item
  save_item-MayChange folds business id input s =
      elim (Option-cases (update_row outside folds business id input s.db)) [
        | inl refused ↦ inl (ground (arith, refused))
        | inr (db, updated) ↦
            let moved : (save_item outside folds business id input s).1.db ≡ db =
              ground (arith, updated) in
            rw moved (update_row-MayChange folds business id input s.db db updated)
      ]

module _ (jwt : Jwt) (outside : Outside) where
  -- What a request about a business does: it is refused and changes no row, or it is granted and makes at
  -- most one change to that business.
  abbrev pub Served : Head → Text → Service → Result Problem Reply × Service → Type 0
  Served head raw s r =
      ((business : ℕ) × Granted jwt outside head raw business s × MayChange business s.db r.1.db)
      ⊎ ((p : Problem) × (r.0 ≡ err p) × (r.1.db ≡ s.db))

  -- An operation behind the checks, whose result is made a reply.
  guarded-Served :
      {A : Type 0} (head : Head) (raw : Text) (op : ℕ → Api A) (reply : A → Reply) (s : Service)
      → ((business : ℕ) (t : Service) → MayChange business t.db (op business t).1.db)
      → Served head raw s ((guarded jwt outside head raw op >>= λ a. pure (reply a)) s)
  guarded-Served head raw op reply s may = elim (decided jwt outside head raw op s) [
    | inl (business, granted, runs) ↦
        let start = entered jwt outside head s in
        let finish =
          ap (λ (t : Service). t.db) (continue-pure reply (guarded jwt outside head raw op s))
          ∙ ap (λ r. r.1.db) runs in
        inl (
          business,
          granted,
          subst (MayChange business s.db) (sym finish) (
              subst (λ d. MayChange business d (op business start).1.db)
                (entered-db jwt outside head s) (may business start)),
        )
    | inr (p, refused) ↦ inr (
      p,
      ap (λ r. (continue {S = Service} (λ a. pure (reply a)) r).0) refused,
      ap (λ r. (continue {S = Service} (λ a. pure (reply a)) r).1.db) refused
          ∙ entered-db jwt outside head s,
    )
  ]

  -- A request about a business either is refused and changes no row, or its bearer token is accepted, has
  -- the scope `merchant` and is of a member of that business, and then it changes nothing, or adds one
  -- section at the next position, or adds or changes one item, all of that business.
  pub serve-Served :
      (head : Head) (request : Request outside) (raw : Text) (s : Service)
      → path_business outside request ≡ some raw
      → Served head raw s (serve jwt outside head request s)
  unfolding serve path_business menu create_section create_item update_item
  serve-Served head business_list raw s e = absurd (ground arith)
  serve-Served head (menu_read path) raw s e =
      let path_is : path ≡ raw = ground arith in
      subst (λ r. Served head r s (serve jwt outside head (menu_read path) s)) path_is
        (guarded-Served head path (λ business. gets (λ t. menu_of jwt outside business t.db))
          sections s (λ business t. inl refl))
  serve-Served head (section_created id path name) raw s e =
      let path_is : path ≡ raw = ground arith in
      subst (λ r. Served head r s (serve jwt outside head (section_created id path name) s)) path_is
        (guarded-Served head path (λ business. add_section id business (trim name)) section s
          (λ business t. add_section-MayChange id business (trim name) t))
  serve-Served head (item_created id path input) raw s e =
      let path_is : path ≡ raw = ground arith in
      subst (λ r. Served head r s (serve jwt outside head (item_created id path input) s)) path_is
        (guarded-Served head path (λ business. add_item outside id business input) item s
          (λ business t. add_item-MayChange outside id business input t))
  serve-Served head (item_updated folds path id value) raw s e =
      let path_is : path ≡ raw = ground arith in
      subst (λ r. Served head r s (serve jwt outside head (item_updated folds path id value) s))
        path_is
        (guarded-Served head path (λ business. save_item outside folds business id value) item s
          (λ business t. save_item-MayChange outside folds business id value t))
  serve-Served head other raw s e = absurd (ground arith)
