-- ===== src/Outbox/Delivery.antt =====
-- No event is lost: a row is marked published only once JetStream has its message.
use drone_dispatch.Common.{
  ◌≡◌, ℕ, refl, Bool, none, arith, List, [], ◌∷◌, ◌++◌, any, ◌||◌, ◌==◌, not, ◌&&◌,
}
use drone_dispatch.Common.Table.{find, update, find_none, insert, find-append}
use drone_dispatch.Outbox.{
  Event, step, run, Message, Relay, deliver, Round, message_of, is_queued, mark, store, relay_batch,
  batch, relayed, queued, queued_row,
}
use drone_dispatch.Db.{OutboxRow}

abbrev pub is_stored : List Message → ℕ → Bool
is_stored stream id = any (λ (m : Message). m.id == id) stream

abbrev pub is_lost : List Message → OutboxRow → Bool
is_lost stream o = not (is_queued o) && not (is_stored stream o.id)

-- Every row that is marked published has its message in the stream.
abbrev pub Delivered : Relay → Type 0
Delivered r = find (is_lost r.stream) r.outbox ≡ none

stored_more :
    (stream : List Message) (m : Message) (id : ℕ)
    → is_stored (stream ++ m ∷ []) id ≡ (is_stored stream id || m.id == id)
stored_more [] m id = ground arith
stored_more (x ∷ stream) m id = ground (arith, stored_more stream m id)

-- A longer stream loses nothing.
lost_less :
    (stream : List Message) (m : Message) (t : List OutboxRow)
    → find (is_lost stream) t ≡ none
    → find (is_lost (stream ++ m ∷ [])) t ≡ none
lost_less stream m t h =
    find_none (is_lost stream) (is_lost (stream ++ m ∷ [])) t
      (λ o k. ground (arith, stored_more stream m o.id)) h

-- The row of a stored message may be marked.
lost-mark :
    (now : ℕ) (stream : List Message) (o : OutboxRow) (t : List OutboxRow)
    → find (is_lost stream) t ≡ none
    → find (is_lost (stream ++ message_of o ∷ [])) (mark now o.id t) ≡ none
unfolding find update
lost-mark now stream o [] h = refl
lost-mark now stream o (x ∷ t) h =
    ground (arith, stored_more stream (message_of o) x.id, lost-mark now stream o t)

-- After the loop, no marked row is lost, also when a failure puts the table back.
deliver-Delivered :
    (round : Round) (rows : List OutboxRow) (r : Relay) (t : List OutboxRow)
    → Delivered r
    → find (is_lost r.stream) t ≡ none
    → Delivered (deliver round rows r).1 × (find (is_lost (deliver round rows r).1.stream) t ≡ none)
unfolding deliver
deliver-Delivered round [] r t h k = (h, k)
deliver-Delivered round (o ∷ rest) r t h k =
    let marked = record (store o r) { outbox = mark round.now o.id r.outbox } in
    ground (
      arith,
      lost_less r.stream (message_of o) t,
      lost_less r.stream (message_of o) r.outbox,
      lost-mark round.now r.stream o r.outbox,
      deliver-Delivered round rest marked t,
    )

relay_batch-Delivered :
    (round : Round) (r : Relay) → Delivered r → Delivered (relay_batch round r).1
unfolding relay_batch
relay_batch-Delivered round r h =
    ground (arith, deliver-Delivered round (batch round r.outbox) r r.outbox h h)

step-Delivered : (e : Event) (r : Relay) → Delivered r → Delivered (step r e)
unfolding step insert
step-Delivered (relayed round) r h = relay_batch-Delivered round r h
step-Delivered (queued now m) r h =
    ground (arith, find-append (is_lost r.stream) r.outbox (queued_row now m))

-- Whatever fails, and whatever is queued meanwhile, a row that is marked published has its message in the
-- stream: an event is delivered at least once.
pub run-Delivered : (events : List Event) (r : Relay) → Delivered r → Delivered (run r events)
unfolding run
run-Delivered [] r h = h
run-Delivered (e ∷ rest) r h = run-Delivered rest (step r e) (step-Delivered e r h)
