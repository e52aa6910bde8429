-- ===== src/Merchant/Fixture.antt =====
-- For tests: one business with one member, and JSON objects as lists of fields.
use drone_dispatch.Common.{
  ℕ, ◌+◌, ◌-◌, ◌*◌, true, ◌&&◌, Option, none, some, List, [], ◌∷◌, leb, if◌then◌else◌, and_then,
  is_some, length,
}
use drone_dispatch.Common.Int.{ℤ, pos}
use drone_dispatch.Common.Table.{find}
use drone_dispatch.Merchant.{Outside, Service, Head}
use drone_dispatch.Merchant.Rows.{ItemInput}
use drone_dispatch.Merchant.Schema.{Business, MerchantDb}
use drone_dispatch.Text.{Text, text, same, is_empty}
use drone_dispatch.Verifier.Fixture.{verifier}

abbrev pub Fields : Type 0
Fields = List (Text × Text)

abbrev pub get : Fields → Text → Option Text
get fields k = and_then (find (λ f. same f.0 k) fields) (λ f. some f.1)

abbrev number_from : ℕ → Text → Option ℤ
number_from acc [] = some (pos acc)
number_from acc (c ∷ t) =
    let rest = number_from (acc * 10 + (c - 48)) t in if leb 48 c && leb c 57 then rest else none

abbrev parse_uuid : Text → Option ℕ
parse_uuid t = if is_empty t then none else some (length t)

abbrev pub outside : Outside
outside = record {
  Value = Fields;
  field_text = get;
  field = λ v k. if same k (text "price") then some v else none;
  has_key = λ v k. is_some (get v k);
  to_bigint = number_from 0;
  to_integer = number_from 0;
  to_boolean = λ t. some (same t (text "true"));
  name_le = λ a b. leb (length a) (length b);
  parse_uuid = parse_uuid;
  to_lowercase = λ t. t;
  from_header = λ t. some t;
}

abbrev pub shop : Business
shop = record {
  id = 2;
  name = text "Cafe";
  address = text "1 Main St";
  lat = 0;
  lon = 0;
  status = text "ACTIVE";
  accepting_orders = true;
  payments_enabled = true;
  prep_time_minutes = 10;
  created_at = 0;
}

abbrev pub empty_db : MerchantDb
empty_db = record {
  businesses = shop ∷ [];
  members = record { business_id = 2; user_sub = 1; role = text "OWNER" } ∷ [];
  sections = [];
  items = [];
}

abbrev pub service_of : MerchantDb → Service
service_of db = record {
  db = db;
  auth = record { verifier = verifier; resource_metadata_url = text "http://m" };
}

abbrev pub signed_in : Head
signed_in = record { now = 5; fetched = none; authorization = some (text "Bearer h") }

abbrev pub coffee : ItemInput
coffee = record {
  section_id = 70;
  name = text " Coffee ";
  spoken_name = none;
  description = [];
  amount_cents = pos 300;
  currency = text "usd";
  weight_g = pos 250;
  stock_qty = none;
  available = true;
}
