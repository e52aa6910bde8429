-- ===== src/Station/Reaching.antt =====
-- Registered stations are found and reached.
use drone_dispatch.Common.{
  ◌≡◌, ℕ, Bool, true, some, none, arith, List, if◌then◌else◌, ◌∷◌, [], ◌++◌, ◌≢◌,
}
use drone_dispatch.Common.Table.{find}
use drone_dispatch.Station.{
  register, insert_station, find_station, connect, sender, of_station, kind_of, send, MemoryNetwork,
  NetworkParams, Sighting, ok, bluetooth_le_params, rssi,
}
use drone_dispatch.Text.{Text, same}
use drone_dispatch.Text.Equality.{same_iff, same_self}

sender_after :
    (channel : ℕ) (id other : Text) (t : List (Text × ℕ))
    → find (of_station other) (insert_station id channel t)
      ≡ (if same id other then some (id, channel) else find (of_station other) t)
unfolding find insert_station
sender_after channel id other [] = ground arith
sender_after channel id other (e ∷ t) =
    ground (
      arith,
      same_iff e.0 id,
      same_iff id other,
      same_iff e.0 other,
      sender_after channel id other t,
    )

-- After a registration, the station is found on its network, and a connection hands the station's end of
-- the pipe to the channel of the latest registration, if that has its receiver, and to no other; every
-- other station keeps its channel.
pub connect-register :
    (network : MemoryNetwork) (id : Text) (channel drone_end station_end : ℕ) (is_open : ℕ → Bool)
    (params : NetworkParams)
    → is_open channel ≡ true
    → (s : Sighting) × (find_station id params (register channel id network).1
        ≡ (ok s, (register channel id network).1))
      × ((connect drone_end station_end is_open s (register channel id network).1).0 ≡ ok drone_end)
      × ((connect drone_end station_end is_open s (register channel id network).1).1.sent
          ≡ network.sent ++ (channel, station_end) ∷ [])
      × ((other : Text)
          → other ≢ id
          → sender other (register channel id network).1 ≡ sender other network)
unfolding register find_station connect sender kind_of send
connect-register network id channel drone_end station_end is_open
      (bluetooth_le_params service_uuid station_tag psm) live =
    let registered : find (of_station id) (insert_station id channel network.stations)
        ≡ some (id, channel) =
      ground (arith, sender_after channel id id network.stations, same_self id) in
    (
      record {
        station_id = id;
        params = bluetooth_le_params service_uuid station_tag psm;
        ranging_method = rssi;
        distance_m = none;
      },
      ground (arith, registered),
      ground (arith, registered, live),
      ground (arith, registered, live),
      λ other differs.
          ground
            (arith, sender_after channel id other network.stations, same_iff id other, differs),
    )
