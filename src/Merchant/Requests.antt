-- ===== src/Merchant/Requests.antt =====
-- services/merchant-service/src/api.rs, `routes`: the requests of the merchant API, each served by its
-- operation, and a run of them.
use drone_dispatch.Common.{ℕ, Bool, Option, none, some, List, [], ◌∷◌}
use drone_dispatch.Common.Exec.{pure, ◌>>=◌}
use drone_dispatch.Merchant.{Outside, Service, Api, Head}
use drone_dispatch.Merchant.Edit.{create_section, create_item, update_item, pending}
use drone_dispatch.Merchant.Rows.{ItemInput}
use drone_dispatch.Merchant.Menu.{ItemView, SectionView, menu, list_businesses}
use drone_dispatch.Merchant.Schema.{Business, Member}
use drone_dispatch.Text.{Text}
use drone_dispatch.Verifier.{Jwt}

-- The first text is the business id of the path; the first number is the id that the code draws.
pub data Request (outside : Outside) : Type 0 where
  business_list : Request outside
  menu_read : Text → Request outside
  section_created : ℕ → Text → Text → Request outside
  item_created : ℕ → Text → ItemInput → Request outside
  item_updated : Bool → Text → ℕ → outside.Value → Request outside
  other : Request outside

pub data Reply : Type 0 where
  businesses : List (Business × Member) → Reply
  sections : List SectionView → Reply
  section : SectionView → Reply
  item : ItemView → Reply
  nothing : Unit {0} → Reply

module _ (jwt : Jwt) (outside : Outside) where
  unfoldable pub serve : Head → Request outside → Api Reply
  serve head business_list = do list ← list_businesses jwt outside head; pure (businesses list)
  serve head (menu_read raw) = do list ← menu jwt outside head raw; pure (sections list)
  serve head (section_created id raw name) = do
    view ← create_section jwt outside id head raw name
    pure (section view)
  serve head (item_created id raw input) = do
    view ← create_item jwt outside id head raw input
    pure (item view)
  serve head (item_updated folds raw id value) = do
    view ← update_item jwt outside folds head raw id value
    pure (item view)
  serve head other = do u ← pending jwt outside head; pure (nothing u)

  unfoldable pub run : Service → List (Head × Request outside) → Service
  unfolding serve
  run s [] = s
  run s ((head, request) ∷ rest) = run (serve head request s).1 rest

-- The business id in the path of a request.
unfoldable pub path_business : (outside : Outside) → Request outside → Option Text
path_business outside business_list = none
path_business outside (menu_read raw) = some raw
path_business outside (section_created id raw name) = some raw
path_business outside (item_created id raw input) = some raw
path_business outside (item_updated folds raw id value) = some raw
path_business outside other = none
