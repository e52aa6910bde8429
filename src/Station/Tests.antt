-- ===== src/Station/Tests.antt =====
-- One registered station, and a key with its pin. The hash is the identity.
use drone_dispatch.Common.{◌≡◌, ◌↔◌, ℕ, refl, true, false, List, [], ◌∷◌, ◌++◌, ◌≢◌}
use drone_dispatch.Common.Exec.{ok}
use drone_dispatch.Text.{Text, text, byte_len}
use drone_dispatch.Station.{
  public_key_sha256, pinned_key_matches, MemoryNetwork, NetworkParams, Sighting, register,
  bluetooth_le_params, find_station, connect, sender,
}
use drone_dispatch.Crypto.{fold_diff}
use drone_dispatch.Station.Pinning.{pinned_key_matches_iff}
use drone_dispatch.Station.Reaching.{connect-register}

hex_runs : public_key_sha256 (λ x. x) (0xe3 ∷ 0x0b ∷ []) ≡ text "e30b"
unfolding public_key_sha256
hex_runs = refl

upper_case_pin_fails : pinned_key_matches (λ x. x) (0xe3 ∷ []) (text "E3") ≡ false
unfolding pinned_key_matches public_key_sha256 fold_diff byte_len
upper_case_pin_fails = refl

pinned_key_matches_iff_example :
    (pinned_key_matches (λ x. x) (7 ∷ []) (public_key_sha256 (λ x. x) (8 ∷ [])) ≡ true)
    ↔ (◌≡◌ {A = List ℕ} (7 ∷ []) (8 ∷ []))
pinned_key_matches_iff_example = pinned_key_matches_iff (λ x. x) (7 ∷ []) (8 ∷ [])

abbrev network : MemoryNetwork
network = record { stations = (text "a", 1) ∷ []; sent = [] }

abbrev registered : MemoryNetwork
registered = (register 2 (text "b") network).1

abbrev params : NetworkParams
params = bluetooth_le_params (text "6e40") (10 ∷ 11 ∷ []) 128

connect-register_example :
    (s : Sighting) × (find_station (text "b") params registered ≡ (ok s, registered))
    × ((connect 8 9 (λ c. true) s registered).0 ≡ ok 8)
    × ((connect 8 9 (λ c. true) s registered).1.sent ≡ network.sent ++ (2, 9) ∷ [])
    × ((other : Text) → other ≢ text "b" → sender other registered ≡ sender other network)
connect-register_example = connect-register network (text "b") 2 8 9 (λ c. true) params refl
