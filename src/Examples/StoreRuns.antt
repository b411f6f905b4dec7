-- ===== src/Examples/StoreRuns.antt =====
-- The in-memory store and the backoff times on small data.
use Prim.Native.String.{String}
use seidrum.Base.{
  any, ℕ, ◌-◌, ◌≤◌, ◌<◌, Text, codes, none, some, List, [], ◌∷◌, ◌≡◌, ◌≢◌, refl, arith, false,
}
use seidrum.Error.{ok}
use seidrum.Store.{
  EventStatus, DeliveryStatus, DeliveryRecord, StoredEvent, RetryableDelivery, is_retryable,
}
use seidrum.Store.Memory.{MemoryStore, compact, query_retryable, retryable_of}
use seidrum.Store.Memory.Events.{view, IsValid, HasRoom}
use seidrum.Store.Memory.Deliveries.{records_of}
use seidrum.Store.Memory.Attempts.{Outcome}
use seidrum.Store.Memory.Stuck.{for_event, partially_delivered_stuck}
use seidrum.Index.Sort.{sort_by_key}

abbrev event : ℕ → String → EventStatus → List DeliveryRecord → StoredEvent
event seq subject status deliveries = record {
  seq = seq;
  subject = codes subject;
  payload = codes "{}";
  stored_at = 100;
  status = status;
  deliveries = deliveries;
  reply_subject = none;
}

abbrev failed_once : DeliveryRecord
failed_once = record {
  subscriber_id = codes "one";
  status = DeliveryStatus.failed;
  attempts = 1;
  last_attempt = some 100;
  next_retry = some 200;
  error = none;
}

abbrev dead : StoredEvent
dead = event 2 "a.b" EventStatus.dead_lettered []

abbrev retrying : StoredEvent
retrying = event 1 "a" EventStatus.partially_delivered (failed_once ∷ [])

abbrev store : MemoryStore
store = record { events = retrying ∷ dead ∷ []; subscriptions = [] }

store-IsValid : IsValid store
store-IsValid = (omega arith, (omega arith, tt))

store-HasRoom : HasRoom store
store-HasRoom = omega arith

compacted_one : (compact 300 50 store).0 ≡ ok 1
unfolding compact
compacted_one = refl

alive : EventStatus.partially_delivered ≢ EventStatus.dead_lettered
alive h = cc

none_twice : (j : Text) → records_of j [] ≤ 1
none_twice j = omega arith

abbrev outcome : DeliveryStatus → Outcome
outcome status = record { now = 300; status = status; error = none; next_retry = none }

below_range : (r : ℕ) → 0 < r → r - 1 < r
below_range r h = omega arith

-- The failed delivery of the first event, from its due time on.
abbrev due_now : List RetryableDelivery
due_now = retryable_of retrying failed_once ∷ []

one_due : query_retryable 300 5 10 store ≡ ok due_now
unfolding query_retryable is_retryable sort_by_key
one_due = refl

abbrev delivered_store : MemoryStore
delivered_store = record { events = event 7 "a" EventStatus.delivered [] ∷ []; subscriptions = [] }

all_compacted : (compact 300 50 delivered_store).0 ≡ ok 1
unfolding compact
all_compacted = refl

abbrev panicked_once : DeliveryRecord
panicked_once = record failed_once { status = DeliveryStatus.dead_lettered; next_retry = none }

abbrev stuck : StoredEvent
stuck = event 1 "a" EventStatus.partially_delivered (panicked_once ∷ [])

abbrev stuck_store : MemoryStore
stuck_store = record { events = stuck ∷ []; subscriptions = [] }

nothing_due : query_retryable 900000 5 10 stuck_store ≡ ok []
unfolding query_retryable is_retryable sort_by_key
nothing_due = refl

partially_delivered_stuck_example :
    (any (for_event 1) [] ≡ false) × (view (compact 900000 50 stuck_store).1 1 ≡ some stuck)
partially_delivered_stuck_example =
    partially_delivered_stuck 900000 5 10 50 1 stuck stuck_store [] (omega arith, tt) refl refl refl
      nothing_due
