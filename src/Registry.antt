-- ===== src/Registry.antt =====
-- services/auth-service/src/registry.rs: the resources that tokens are issued for, and the clients.
pub mod Policy
use Policy.{MfaPolicy}
use drone_dispatch.Common.{ℕ, Bool, Option, none, some, List, [], ◌∷◌, if◌then◌else◌, is_some}
use drone_dispatch.Common.Table.{find, insert, update}
use drone_dispatch.Config.{Config}
use drone_dispatch.Crypto.{Primitives, hash_token}
use drone_dispatch.Db.{Db, ClientRow}
use drone_dispatch.Text.{Text, text, same, contains}
use drone_dispatch.Text.Keyed.{by}

pub record Resource : Type 0 where
  pub uri : Text
  pub scopes : List Text
  pub mfa : MfaPolicy

unfoldable pub find_resource : List Resource → Text → Option Resource
find_resource resources uri = find (by (λ r. r.uri) uri) resources

pub record Client : Type 0 where
  pub client_id : Text
  pub name : Text
  pub redirect_uris : List Text
  pub secret_hash : Option Text
  pub first_party : Bool

abbrev pub first_party : List Text
first_party = text "ui-web" ∷ text "ui-native" ∷ []

abbrev client_of_row : ClientRow → Client
client_of_row row = record {
  client_id = row.client_id;
  name = row.name;
  redirect_uris = row.redirect_uris;
  secret_hash = row.secret_hash;
  first_party = contains first_party row.client_id;
}

unfoldable pub find_client : Db → Text → Option Client
find_client db client_id = elim (find (by (λ c. c.client_id) client_id) db.clients) [
  | none ↦ none
  | some row ↦ some (client_of_row row)
]

unfoldable pub resources : Config → List Resource
resources config =
    record {
      uri = config.user_api_url;
      scopes = text "openid" ∷ text "email" ∷ [];
      mfa = MfaPolicy.step_up;
    }
    ∷ record {
      uri = config.merchant_api_url;
      scopes = text "openid" ∷ text "email" ∷ text "merchant" ∷ [];
      mfa = MfaPolicy.always;
    }
    ∷ record {
      uri = config.mcp_resource_url;
      scopes = text "openid" ∷ text "delivery" ∷ [];
      mfa = MfaPolicy.none;
    }
    ∷ []

abbrev static_row : Text → Text → List Text → Option Text → ClientRow
static_row client_id name redirect_uris secret_hash = record {
  client_id = client_id;
  secret_hash = secret_hash;
  name = name;
  redirect_uris = redirect_uris;
  auth_method = if is_some secret_hash then text "client_secret_basic" else text "none";
}

-- `INSERT … ON CONFLICT (client_id) DO UPDATE`
unfoldable pub upsert : Text → Text → List Text → Option Text → Db → Db
upsert client_id name redirect_uris secret_hash db =
    let row = static_row client_id name redirect_uris secret_hash in
    elim (insert (by (λ c. c.client_id) client_id) row db.clients) [
      | none ↦ record db {
        clients = update (by (λ c. c.client_id) client_id) (λ _. row) db.clients;
      }
      | some clients ↦ record db { clients = clients }
    ]

-- The `match` on the Alexa secret and on whether it has redirect URIs.
unfoldable pub seed_alexa : Primitives → Config → Db → Db
unfolding upsert
seed_alexa crates config db = elim config.alexa_client_secret [
  | none ↦ db
  | some secret ↦ elim config.alexa_redirect_uris [
    | [] ↦ db
    | u ∷ us ↦
        upsert (text "alexa") (text "Alexa") config.alexa_redirect_uris
          (some (hash_token crates secret)) db
  ]
]

unfoldable pub seed_clients : Primitives → Config → Db → Db
unfolding upsert seed_alexa
seed_clients crates config db = seed_alexa crates config (
    upsert (text "ui-native") (text "Drone Drop app") config.ui_native_redirect_uris none
      (upsert (text "ui-web") (text "Drone Drop") config.ui_web_redirect_uris none db))
