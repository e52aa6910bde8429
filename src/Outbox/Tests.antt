-- ===== src/Outbox/Tests.antt =====
-- Two queued events, and a round that works.
use drone_dispatch.Common.{◌≡◌, ℕ, refl, true, false, none, [], ◌∷◌, arith, ◌≤◌, not, length}
use drone_dispatch.Outbox.{
  run, relayed, queued, Message, Relay, Round, batch, queued_row, acknowledged,
}
use drone_dispatch.Db.{GrantRevoked}
use drone_dispatch.Common.Table.{find, count, select, update}
use drone_dispatch.Outbox.Draining.{Good, queue_length, rounds_of, drained}
use drone_dispatch.Outbox.Delivery.{Delivered, run-Delivered, is_stored}
use drone_dispatch.Common.Sorting.{order_by, insert_row}

abbrev event : ℕ → GrantRevoked
event id = record {
  event_id = id;
  grant_id = id;
  sub = 1;
  client_id = [];
  resource = [];
  revoked_at = 0;
}

abbrev message : ℕ → Message
message id = record { id = id; subject = "auth.events.grant_revoked"; payload = event id }

abbrev relay : Relay
relay = record { outbox = queued_row 9 (message 1) ∷ queued_row 4 (message 2) ∷ []; stream = [] }

abbrev works : Round
works = record { now = 20; locked = λ o. false; publish = λ o. acknowledged; commits = true }

-- The older event goes first.
oldest_first : (run relay (relayed works ∷ [])).stream ≡ message 2 ∷ message 1 ∷ []
unfolding run batch order_by insert_row select update
oldest_first = refl

-- A failed commit leaves the queue, and the messages go out again.
delivered_twice :
    length (run relay (relayed (record works { commits = false }) ∷ relayed works ∷ [])).stream ≡ 4
unfolding run batch order_by insert_row select update
delivered_twice = refl

relay-Delivered : Delivered relay
unfolding find
relay-Delivered = refl

works-Good : Good works
works-Good = record { unlocked = λ o. refl; answered = λ o. refl; committed = refl }

run-Delivered_example :
    Delivered (run relay (relayed (record works { commits = false }) ∷ queued 5 (message 3) ∷ []))
run-Delivered_example =
    run-Delivered (relayed (record works { commits = false }) ∷ queued 5 (message 3) ∷ []) relay
      relay-Delivered

short_queue : queue_length relay ≤ 100
unfolding count
short_queue = omega arith

drained_example :
    (queue_length (run relay (rounds_of (works ∷ []))) ≡ 0)
    × (find
          (λ o. not (is_stored (run relay (rounds_of (works ∷ []))).stream o.id))
          (run relay (rounds_of (works ∷ []))).outbox
        ≡ none)
drained_example = drained (works ∷ []) relay (works-Good, tt) short_queue relay-Delivered
