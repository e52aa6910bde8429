-- ===== src/Outbox/Draining.antt =====
-- While nothing fails, the relay empties its queue, a hundred rows at a time.
use drone_dispatch.Common.{
  ◌≡◌, ℕ, refl, Bool, true, false, none, arith, List, [], ◌∷◌, ◌≤◌, any, length, take, ◌==◌, ◌+◌,
  suc, ◌&&◌, not, zero, leb, ◌-◌, sub-length-take, All, ◌*◌,
}
use drone_dispatch.Common.Table.{count, update, select, find}
use drone_dispatch.Outbox.{
  run, step, Event, relayed, Relay, Round, deliver, is_queued, acknowledged, store, mark, batch,
  batch_size, relay_batch, Message,
}
use drone_dispatch.Db.{OutboxRow}
use drone_dispatch.Common.Sorting.{order_by, length-order_by, count-order_by}
use drone_dispatch.Common.Table.Select.{length-select, count-select, count_mono}
use drone_dispatch.Outbox.Delivery.{is_lost, Delivered, is_stored, run-Delivered}

abbrev pub queue_length : Relay → ℕ
queue_length r = count is_queued r.outbox

-- A round in which no row is locked, every publish is acknowledged and the commit succeeds.
pub record Good (round : Round) : Type 0 where
  pub unlocked : (o : OutboxRow) → round.locked o ≡ false
  pub answered : (o : OutboxRow) → round.publish o ≡ acknowledged
  pub committed : round.commits ≡ true

abbrev pub is_among : List OutboxRow → OutboxRow → Bool
is_among rows o = any (λ (x : OutboxRow). x.id == o.id) rows

abbrev is_left : List OutboxRow → OutboxRow → Bool
is_left rows o = is_queued o && not (is_among rows o)

-- Marking a row takes it, and the rows with its id, out of the queue.
left-mark :
    (now : ℕ) (o : OutboxRow) (rest : List OutboxRow) (t : List OutboxRow)
    → count (is_left rest) (mark now o.id t) ≡ count (is_left (o ∷ rest)) t
unfolding count update
left-mark now o rest [] = refl
left-mark now o rest (x ∷ t) = ground (arith, left-mark now o rest t)

left-nil : (t : List OutboxRow) → count is_queued t ≡ count (is_left []) t
unfolding count
left-nil [] = refl
left-nil (x ∷ t) = ground (arith, left-nil t)

deliver-left :
    (round : Round) (rows : List OutboxRow) (r : Relay)
    → Good round
    → ((deliver round rows r).0 ≡ true)
      × (queue_length (deliver round rows r).1 ≡ count (is_left rows) r.outbox)
unfolding deliver
deliver-left round [] r g = (refl, left-nil r.outbox)
deliver-left round (o ∷ rest) r g = ground (
  arith,
  g.answered o,
  left-mark round.now o rest r.outbox,
  deliver-left round rest (record (store o r) { outbox = mark round.now o.id r.outbox }) g,
)

-- The queue falls by the rows that are among the batch.
left_split :
    (rows : List OutboxRow) (t : List OutboxRow)
    → count is_queued t ≡ count (is_left rows) t + count (λ o. is_queued o && is_among rows o) t
unfolding count
left_split rows [] = omega arith
left_split rows (x ∷ t) = ground (arith, left_split rows t)

count-among :
    (rows more : List OutboxRow)
    → ((o : OutboxRow) → is_among rows o ≡ true → is_among more o ≡ true)
    → count (is_among more) rows ≡ length rows
unfolding count
count-among [] more h = refl
count-among (x ∷ rows) more h =
    ground (arith, h x, count-among rows more (λ o k. ground (arith, h o)))

count-take : (n : ℕ) (p : OutboxRow → Bool) (t : List OutboxRow) → count p (take n t) ≤ count p t
unfolding count
count-take zero p t = omega arith
count-take (suc n) p [] = omega arith
count-take (suc n) p (x ∷ t) = ground (arith, count-take n p t)

abbrev by_age : OutboxRow → OutboxRow → Bool
by_age a b = leb a.created_at b.created_at

abbrev free : Round → OutboxRow → Bool
free round o = is_queued o && not (round.locked o)

free-count :
    (round : Round) (t : List OutboxRow) → Good round → count (free round) t ≡ count is_queued t
unfolding count
free-count round [] g = refl
free-count round (x ∷ t) g = ground (arith, g.unlocked x, free-count round t g)

-- A good round takes a hundred rows, or all that are queued.
length-batch :
    (round : Round) (t : List OutboxRow)
    → Good round
    → count is_queued t - batch_size ≡ count is_queued t - length (batch round t)
unfolding batch
length-batch round t g =
    let sorted = order_by by_age (select (free round) t) in
    let size : length sorted ≡ count is_queued t = omega (
      arith,
      length-order_by by_age (select (free round) t),
      length-select (free round) t,
      free-count round t g,
    ) in
    omega (arith, sub-length-take batch_size sorted)

batch-among :
    (round : Round) (t : List OutboxRow)
    → length (batch round t) ≤ count (λ o. is_queued o && is_among (batch round t) o) t
unfolding batch
batch-among round t =
    let rows = batch round t in
    let sorted = order_by by_age (select (free round) t) in
    omega (
      arith,
      count-among rows rows (λ o h. h),
      count-take batch_size (is_among rows) sorted,
      count-order_by by_age (is_among rows) (select (free round) t),
      count-select (free round) (is_among rows) t,
      count_mono (λ o. is_queued o && is_among rows o) (λ o. free round o && is_among rows o) t
          (λ o h. ground arith),
    )

relay_batch-Good :
    (round : Round) (r : Relay)
    → Good round
    → queue_length (relay_batch round r).1 ≤ queue_length r - batch_size
unfolding relay_batch
relay_batch-Good round r g =
    let rows = batch round r.outbox in
    let (done, left) = deliver-left round rows r g in
    let after : queue_length (relay_batch round r).1 ≡ count (is_left rows) r.outbox =
      ground (arith, done, left, g.committed) in
    omega (
      arith,
      after,
      left_split rows r.outbox,
      batch-among round r.outbox,
      length-batch round r.outbox g,
    )

abbrev pub rounds_of : List Round → List Event
rounds_of [] = []
rounds_of (round ∷ rest) = relayed round ∷ rounds_of rest

empties :
    (rounds : List Round) (r : Relay)
    → All Good rounds
    → queue_length r ≤ batch_size * length rounds
    → queue_length (run r (rounds_of rounds)) ≡ 0
unfolding run step
empties [] r g h = omega arith
empties (round ∷ rest) r g h =
    empties rest (relay_batch round r).1 g.1 (omega (arith, relay_batch-Good round r g.0))

all_stored :
    (stream : List Message) (t : List OutboxRow)
    → count is_queued t ≡ 0
    → find (is_lost stream) t ≡ none
    → find (λ o. not (is_stored stream o.id)) t ≡ none
unfolding count find
all_stored stream [] h k = refl
all_stored stream (x ∷ t) h k = ground (arith, all_stored stream t)

-- While nothing fails, one round for each hundred queued rows, or part of a hundred, empties the queue, and
-- then the stream holds the message of every row of the table.
pub drained :
    (rounds : List Round) (r : Relay)
    → All Good rounds
    → queue_length r ≤ batch_size * length rounds
    → Delivered r
    → (queue_length (run r (rounds_of rounds)) ≡ 0)
      × (find
            (λ o. not (is_stored (run r (rounds_of rounds)).stream o.id))
            (run r (rounds_of rounds)).outbox
          ≡ none)
drained rounds r g h d =
    let done = run r (rounds_of rounds) in
    let empty = empties rounds r g h in
    (empty, all_stored done.stream done.outbox empty (run-Delivered (rounds_of rounds) r d))
