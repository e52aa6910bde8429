-- ===== src/Oauth/Metadata/Tests.antt =====
-- Credentials as in the test of oauth.rs, with the identity for the decoders.
use drone_dispatch.Common.{◌≡◌, refl, none, some, ◌∷◌, []}
use drone_dispatch.Flow.Fixture.{config}
use drone_dispatch.Registry.{resources}
use drone_dispatch.Text.{text}
use drone_dispatch.Oauth.Metadata.{Decoders, basic_auth, scopes_supported}

abbrev decoders : Decoders
decoders = record { base64_text = λ t. some t; form_value = λ t. some t }

basic_auth_runs : basic_auth decoders (some (text "Basic alexa:s")) ≡ some (text "alexa", text "s")
unfolding basic_auth drone_dispatch.Text.split_once drone_dispatch.Text.Ascii.eq_ignore_ascii_case
    drone_dispatch.Text.trim
basic_auth_runs = refl

bearer_is_no_credential : basic_auth decoders (some (text "Bearer token")) ≡ none
unfolding basic_auth drone_dispatch.Text.split_once drone_dispatch.Text.Ascii.eq_ignore_ascii_case
bearer_is_no_credential = refl

scopes_are_sorted :
    scopes_supported (resources config)
    ≡ text "delivery" ∷ text "email" ∷ text "merchant" ∷ text "openid" ∷ []
unfolding scopes_supported drone_dispatch.Text.Dedup.dedup drone_dispatch.Common.Sorting.order_by
    resources drone_dispatch.Text.Dedup.text_le drone_dispatch.Text.same
scopes_are_sorted = refl
