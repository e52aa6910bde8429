-- ===== src/Config/Env/Tests.antt =====
-- An environment that sets what has no default.
use drone_dispatch.Common.{◌≡◌, refl, none, some, [], ◌∷◌, if◌then◌else◌}
use drone_dispatch.Common.Exec.{ok, err}
use drone_dispatch.Text.{text, same, split, trim}
use drone_dispatch.Config.Env.{
  Environment, signing_key_pem, list, trim_url, from_env, origin, env, missing_variable,
}

abbrev environment : Environment
environment = record {
  var = λ key.
      if same key (text "DATABASE_URL")
      then some (text "postgres")
      else if same key (text "AUTH_SIGNING_KEY_PEM")
      then some (text "a\\nb")
      else none;
  parse_url = λ url. some (record {
    scheme = text "http";
    host = some (text "localhost");
    path = text "/api/auth/";
    origin = text "http://localhost:8086";
  });
  read_key_file = λ path. none;
}

key_is_unescaped : signing_key_pem environment ≡ ok (97 ∷ 10 ∷ 98 ∷ [])
unfolding signing_key_pem same
key_is_unescaped = refl

list_runs : list (text " a, ,b,") ≡ text "a" ∷ text "b" ∷ []
unfolding list split trim
list_runs = refl

slashes_go : trim_url (text " http://a// ") ≡ text "http://a"
unfolding trim_url trim
slashes_go = refl

-- Without a database URL there are no settings.
needs_a_database : from_env (record environment { var = λ key. none }) ≡ err missing_variable
unfolding from_env origin env
needs_a_database = refl

cookie_path_is_trimmed :
    (elim (from_env environment) [ ok c ↦ c.cookie_path | err e ↦ [] ]) ≡ text "/api/auth"
unfolding from_env origin env signing_key_pem same
cookie_path_is_trimmed = refl
