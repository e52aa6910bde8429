-- ===== src/Station.antt =====
-- crates/station/src/lib.rs and memory.rs: the key pinned in a mission, and the in-memory access network
-- of the flight simulator.
pub mod Pinning
pub mod Reaching
mod Tests
use drone_dispatch.Common.{
  ℕ, ◌+◌, ◌/◌, ◌%◌, Bool, true, false, ◌&&◌, ◌||◌, not, Option, none, some, List, [], ◌∷◌, ◌++◌,
  ltb, ◌==◌, if◌then◌else◌, is_some, and_then, String,
}
use drone_dispatch.Common.Exec.{
  Exec, Result, ok, err, gets, ok_or, reject_if, pure, modify, ◌>>=◌, ◌>>◌,
}
use drone_dispatch.Common.Table.{find}
use drone_dispatch.Crypto.{fold_diff}
use drone_dispatch.Text.{Text, text, same, bytes, byte_len}

pub data NetworkKind : Type 0 where
  bluetooth_le : NetworkKind

unfoldable pub as_str : NetworkKind → Text
as_str bluetooth_le = text "BLUETOOTH_LE"

-- The service UUID, the station tag and the L2CAP channel.
pub data NetworkParams : Type 0 where
  bluetooth_le_params : Text → List ℕ → ℕ → NetworkParams

unfoldable pub kind_of : NetworkParams → NetworkKind
kind_of (bluetooth_le_params service_uuid station_tag l2cap_psm) = bluetooth_le

pub record StationTarget : Type 0 where
  pub station_id : Text
  pub public_key_sha256 : Text
  pub networks : List NetworkParams

pub data RangingMethod : Type 0 where
  gnss rssi channel_sounding : RangingMethod

-- A distance is the bit pattern of an `f32`.
pub record Sighting : Type 0 where
  pub station_id : Text
  pub params : NetworkParams
  pub ranging_method : RangingMethod
  pub distance_m : Option ℕ

-- The I/O error inside the last one is not kept.
pub data StationError : Type 0 where
  not_found unavailable : NetworkKind → StationError
  connect_failed : StationError

hex_digit : ℕ → ℕ
hex_digit n = if ltb n 10 then 48 + n else 87 + n

-- `{byte:02x}` of each byte.
hex : List ℕ → Text
unfolding hex_digit
hex [] = []
hex (b ∷ bs) = hex_digit (b / 16) ∷ hex_digit (b % 16) ∷ hex bs

-- `sha256` is that of the crate sha2.
module _ (sha256 : List ℕ → List ℕ) where
  unfoldable pub public_key_sha256 : List ℕ → Text
  unfolding hex
  public_key_sha256 public_key_der = hex (sha256 public_key_der)

  unfoldable pub pinned_key_matches : List ℕ → Text → Bool
  pinned_key_matches public_key_der expected =
      let actual = public_key_sha256 public_key_der in
      byte_len actual == byte_len expected && fold_diff 0 (bytes actual) (bytes expected) == 0

-- A channel and the end of a pipe are numbers: the channel whose sender a station id has, and the pipe
-- ends that were sent on a channel.
pub record MemoryNetwork : Type 0 where
  pub stations : List (Text × ℕ)
  pub sent : List (ℕ × ℕ)

abbrev pub of_station : Text → Text × ℕ → Bool
of_station id entry = same entry.0 id

-- `HashMap::insert`
insert_station : Text → ℕ → List (Text × ℕ) → List (Text × ℕ)
insert_station id channel [] = (id, channel) ∷ []
insert_station id channel (e ∷ t) =
    let rest = insert_station id channel t in
    if of_station id e then (id, channel) ∷ t else e ∷ rest

abbrev pub Network : Type 0 → Type 0
Network A = Exec StationError MemoryNetwork A

-- `channel` is the new channel, whose receiver the caller gets.
unfoldable pub register : (channel : ℕ) → Text → Network ℕ
unfolding insert_station
register channel id network =
    (ok channel, record network { stations = insert_station id channel network.stations })

unfoldable pub sender : Text → MemoryNetwork → Option ℕ
sender id network = and_then (find (of_station id) network.stations) (λ e. some e.1)

abbrev pub kind : NetworkKind
kind = bluetooth_le

abbrev pub same_kind : NetworkKind → NetworkKind → Bool
same_kind bluetooth_le bluetooth_le = true

unfoldable pub find_station : Text → NetworkParams → Network Sighting
unfolding kind_of sender
find_station id params = do
  known ← gets (λ n. is_some (sender id n))
  reject_if (not (same_kind (kind_of params) kind) || not known) (not_found kind)
  pure (record { station_id = id; params = params; ranging_method = rssi; distance_m = none })

send : ℕ → ℕ → MemoryNetwork → MemoryNetwork
send channel pipe network = record network { sent = network.sent ++ (channel, pipe) ∷ [] }

-- The drone's and the station's end of the new pipe, and whether a channel still has its receiver.
unfoldable pub connect : (drone_end station_end : ℕ) → (ℕ → Bool) → Sighting → Network ℕ
unfolding sender send
connect drone_end station_end is_open sighting = do
  found ← gets (sender sighting.station_id)
  channel ← ok_or found (not_found kind)
  reject_if (not (is_open channel)) (not_found kind)
  modify (send channel station_end)
  pure drone_end
