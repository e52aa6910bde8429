-- ===== src/Verifier/Tests.antt =====
-- The verifier at concrete tokens.
use drone_dispatch.Clock.{seconds}
use drone_dispatch.Common.{◌≡◌, ◌≢◌, none, some, refl, arith, [], ◌∷◌, List}
use drone_dispatch.Common.Exec.{ok, ok_or}
use drone_dispatch.Common.Table.{find}
use drone_dispatch.Text.{Text, text, same}
use drone_dispatch.Verifier.{
  key, verify, revoke_grant, run, grant_revoked, TokenVerifier, Jwk, index_keys, cached_key,
  unknown_key, with_keys,
}
use drone_dispatch.Verifier.Fixture.{jwt, verifier, claims_of}
use drone_dispatch.Verifier.Revoked.{revoked_token_rejected, cooldown_holds, stale_key_reloaded}

abbrev one_revoked : TokenVerifier
one_revoked = run jwt (revoke_grant (text "g") verifier) (grant_revoked (text "x") ∷ [])

abbrev after_check : TokenVerifier
after_check = (verify jwt 5 none (text "h") one_revoked).1

other_is_accepted :
    verify jwt 5 none (text "h") one_revoked ≡ (ok (claims_of (text "h")), after_check)
unfolding verify same find run revoke_grant drone_dispatch.Text.contains
    drone_dispatch.Text.Ascii.eq_ignore_ascii_case
other_is_accepted = refl

revoked_token_rejected_example : text "h" ≢ text "g"
revoked_token_rejected_example =
    revoked_token_rejected jwt (grant_revoked (text "x") ∷ []) (text "g") (text "h") 5 none verifier
      after_check (claims_of (text "h")) other_is_accepted

abbrev new_keys : List Jwk
new_keys = record { kid = some (text "n"); decoding_key = some (text "new") } ∷ []

stale_key_reloaded_example :
    (key (seconds 3600) (some new_keys) (text "k") verifier
      ≡ (ok_or
            (cached_key
              (text "k")
              (record { by_kid = (text "n", text "new") ∷ []; loaded_at = some (seconds 3600) }))
            unknown_key)
          (with_keys (seconds 3600) ((text "n", text "new") ∷ []) verifier))
    × (key (seconds 3600) none (text "k") verifier ≡ (ok (text "old"), verifier))
unfolding find same index_keys
stale_key_reloaded_example =
    stale_key_reloaded (seconds 3600) 0 new_keys ((text "n", text "new") ∷ []) (text "k")
      (text "old") verifier refl refl (omega arith) refl refl

cooldown_holds_example :
    key 5 (some new_keys) (text "n") verifier
    ≡ (ok_or (cached_key (text "n") verifier.keys) unknown_key) verifier
cooldown_holds_example = cooldown_holds 5 0 (some new_keys) (text "n") verifier refl (omega arith)
