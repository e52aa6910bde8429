-- ===== src/Merchant/Integrity/Runs.antt =====
-- Runs of requests keep the tables sound.
use drone_dispatch.Common.{refl, [], ◌∷◌, ◌≡◌, ℕ, ◌∙◌, List, none, arith, Option-cases, inl, inr}
use drone_dispatch.Merchant.Requests.{run, business_list, other, serve, Request, path_business}
use drone_dispatch.Merchant.{user_id, Service, Outside, Head, merchant}
use drone_dispatch.Common.Exec.Moves.{IsPreorder, Moves, moves_rules}
use drone_dispatch.Verifier.{Jwt, AccessClaims}
use drone_dispatch.Merchant.Menu.{list_businesses}
use drone_dispatch.Merchant.Edit.{pending}
use drone_dispatch.Common.Exec.{lift, err}
use drone_dispatch.Merchant.Access.{entered-db}
use drone_dispatch.Merchant.Changes.{MayChange, serve-Served}
use drone_dispatch.Merchant.Integrity.{Sound, MayChange-Sound}
use drone_dispatch.Verifier.Extract.{not_implemented}

record SameDb (s s' : Service) : Type 0 where
  same_db : s'.db ≡ s.db

SameDb-preorder : IsPreorder SameDb
SameDb-preorder = record {
  same = λ s. record { same_db = refl };
  chain = λ a b c h k. record { same_db = k.same_db ∙ h.same_db };
}

module _ (jwt : Jwt) (outside : Outside) where
  merchant-SameDb : (head : Head) → Moves SameDb (merchant jwt outside head)
  merchant-SameDb head = record { along = λ s. record { same_db = entered-db jwt outside head s } }

  user_id-SameDb : (claims : AccessClaims) → Moves SameDb (user_id jwt outside claims)
  unfolding user_id
  user_id-SameDb claims = search (moves_rules, SameDb-preorder) depth 6

  pending-SameDb : Moves {A = Unit {0}} SameDb (lift (err not_implemented))
  pending-SameDb = record { along = λ s. record { same_db = refl } }

  business_list-SameDb : (head : Head) → Moves SameDb (serve jwt outside head business_list)
  unfolding serve list_businesses
  business_list-SameDb head =
      search (moves_rules, SameDb-preorder, merchant-SameDb, user_id-SameDb) depth 12

  other-SameDb : (head : Head) → Moves SameDb (serve jwt outside head other)
  unfolding serve pending
  other-SameDb head =
      search (moves_rules, SameDb-preorder, merchant-SameDb, pending-SameDb) depth 12

  pub serve-unnamed :
      (head : Head) (request : Request outside) (s : Service)
      → path_business outside request ≡ none
      → (serve jwt outside head request s).1.db ≡ s.db
  unfolding path_business
  serve-unnamed head business_list s e = ((business_list-SameDb head).along s).same_db
  serve-unnamed head other s e = ((other-SameDb head).along s).same_db
  serve-unnamed head request s e = absurd (ground arith)

  -- Every request changes at most the menu of one business.
  pub serve-MayChange :
      (head : Head) (request : Request outside) (s : Service)
      → (business : ℕ) × MayChange business s.db (serve jwt outside head request s).1.db
  serve-MayChange head request s = elim (Option-cases (path_business outside request)) [
    | inl none_named ↦ (0, inl (serve-unnamed head request s none_named))
    | inr (raw, named) ↦ elim (serve-Served jwt outside head request raw s named) [
      | inl (business, granted, may) ↦ (business, may)
      | inr (p, refused, same) ↦ (0, inl same)
    ]
  ]

  -- Whatever the requests and their outcomes, from sound tables on, section ids and item ids stay unique,
  -- the sections of each business are numbered 0, 1, 2, ... without gaps, every item stands in a section
  -- of its own business, and every item passes the CHECKs of its table.
  pub run-Sound :
      (requests : List (Head × Request outside)) (s : Service)
      → Sound s.db
      → Sound (run jwt outside s requests).db
  unfolding run
  run-Sound [] s v = v
  run-Sound ((head, request) ∷ rest) s v =
      let (business, may) = serve-MayChange head request s in
      run-Sound rest (serve jwt outside head request s).1 (MayChange-Sound may v)
