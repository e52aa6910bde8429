-- ===== src/Outbox.antt =====
-- crates/svc-common/src/outbox.rs: the relay that publishes queued events. (`enqueue` is in Oauth.)
pub mod Delivery
pub mod Draining
mod Tests
use drone_dispatch.Common.{
  ℕ, Bool, true, false, not, ◌&&◌, Option, none, some, List, [], ◌∷◌, ◌++◌, String, length, take,
  leb, if◌then◌else◌, is_some,
}
use drone_dispatch.Common.Exec.{Result, ok, err}
use drone_dispatch.Common.Sorting.{order_by}
use drone_dispatch.Common.Table.{select, update, at, insert}
use drone_dispatch.Db.{OutboxRow, GrantRevoked}

-- A message with its `Nats-Msg-Id`.
pub record Message : Type 0 where
  pub id : ℕ
  pub subject : String
  pub payload : GrantRevoked

-- The table, and what JetStream has stored, a message that was published twice included twice.
pub record Relay : Type 0 where
  pub outbox : List OutboxRow
  pub stream : List Message

-- What becomes of a publish: it is stored and acknowledged, stored with its acknowledgement lost, or
-- not stored.
pub data Publish : Type 0 where
  acknowledged unanswered failed : Publish

-- One round of the relay, as the world answers it: the time, the rows that another transaction has
-- locked, the answers to the publishes, and whether the commit succeeds.
pub record Round : Type 0 where
  pub now : ℕ
  pub locked : OutboxRow → Bool
  pub publish : OutboxRow → Publish
  pub commits : Bool

abbrev pub message_of : OutboxRow → Message
message_of o = record { id = o.id; subject = o.subject; payload = o.payload }

abbrev pub row_id : OutboxRow → ℕ
row_id o = o.id

abbrev pub is_queued : OutboxRow → Bool
is_queued o = not (is_some o.published_at)

abbrev pub batch_size : ℕ
batch_size = 100

-- SELECT ... WHERE published_at IS NULL ORDER BY created_at LIMIT 100 FOR UPDATE SKIP LOCKED
unfoldable pub batch : Round → List OutboxRow → List OutboxRow
batch round outbox = take batch_size (
    order_by (λ (a b : OutboxRow). leb a.created_at b.created_at)
      (select (λ o. is_queued o && not (round.locked o)) outbox))

abbrev pub set_published : ℕ → OutboxRow → OutboxRow
set_published now o = record o { published_at = some now }

-- UPDATE outbox SET published_at = now() WHERE id = $1
abbrev pub mark : ℕ → ℕ → List OutboxRow → List OutboxRow
mark now id outbox = update (at row_id id) (set_published now) outbox

abbrev pub store : OutboxRow → Relay → Relay
store o r = record r { stream = r.stream ++ message_of o ∷ [] }

-- The loop over the batch; false where a publish fails, which ends the function.
unfoldable pub deliver : Round → List OutboxRow → Relay → Bool × Relay
deliver round [] r = (true, r)
deliver round (o ∷ rest) r =
    let next = deliver round rest (record (store o r) { outbox = mark round.now o.id r.outbox }) in
    elim (round.publish o) [
      | acknowledged ↦ next
      | unanswered ↦ (false, store o r)
      | failed ↦ (false, r)
    ]

-- A failure rolls the table back; what JetStream has stored stays.
unfoldable pub relay_batch : Round → Relay → Result (Unit {0}) ℕ × Relay
unfolding deliver batch
relay_batch round r =
    let rows = batch round r.outbox in
    let (done, after) = deliver round rows r in
    if done && round.commits
    then (ok (length rows), after)
    else (err tt, record after { outbox = r.outbox })

abbrev pub queued_row : ℕ → Message → OutboxRow
queued_row now m = record {
  id = m.id;
  subject = m.subject;
  payload = m.payload;
  created_at = now;
  published_at = none;
}

-- What happens to the table: a round of the loop of `spawn_relay`, or a transaction that queues an event
-- at a time, which fails where the id is in use.
pub data Event : Type 0 where
  relayed : Round → Event
  queued : ℕ → Message → Event

unfoldable pub step : Relay → Event → Relay
unfolding relay_batch
step r (relayed round) = (relay_batch round r).1
step r (queued now m) = elim (insert (at row_id m.id) (queued_row now m) r.outbox) [
  | none ↦ r
  | some outbox ↦ record r { outbox = outbox }
]

unfoldable pub run : Relay → List Event → Relay
unfolding step
run r [] = r
run r (e ∷ rest) = run (step r e) rest
