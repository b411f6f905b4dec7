-- ===== src/Store/Memory.antt =====
-- The in-memory event store: crates/core/seidrum-eventbus/src/storage/memory_store.rs. Each operation
-- runs under one lock, so it is one step here; `now` is the clock that it reads.
pub mod Seq
pub mod Events
pub mod Deliveries
pub mod Queries
pub mod Attempts
pub mod Outcomes
pub mod Stuck
use seidrum.Base.{
  ℕ, suc, ◌+◌, ◌-◌, ◌==◌, ltb, leb, if◌then◌else◌, Text, text_eq, length, take, retain, find, map,
  Bool, true, false, not, ◌&&◌, ◌||◌, Option, none, some, List, [], ◌∷◌, ◌++◌,
}
use seidrum.Error.{Result, ok, err, StorageError, not_found, not_dead_lettered}
use seidrum.Index.Sort.{sort_by_key}
use seidrum.Store.{
  EventStatus, DeliveryStatus, DeliveryRecord, StoredEvent, RetryableDelivery, Reason,
  PersistedSubscription, delivery_eq, status_eq, is_retryable, next_u32, next_u64,
}

pub record MemoryStore : Type 0 where
  pub events : List StoredEvent
  pub subscriptions : List (Text × PersistedSubscription)

abbrev pub new : MemoryStore
new = record { events = []; subscriptions = [] }

-- `events.last().map(|e| e.seq + 1).unwrap_or(1)`.
unfoldable pub next_seq : List StoredEvent → ℕ
next_seq [] = 1
next_seq (e ∷ []) = next_u64 e.seq
next_seq (e ∷ f ∷ es) = next_seq (f ∷ es)

abbrev pub stamped : ℕ → ℕ → StoredEvent → StoredEvent
stamped seq now event = record event { seq = seq; stored_at = now }

unfoldable pub append : ℕ → StoredEvent → MemoryStore → Result StorageError ℕ × MemoryStore
append now event s =
    let seq = next_seq s.events in
    (ok seq, record s { events = s.events ++ stamped seq now event ∷ [] })

abbrev pub has_seq : ℕ → StoredEvent → Bool
has_seq seq e = e.seq == seq

unfoldable pub get : ℕ → MemoryStore → Result StorageError (Option StoredEvent)
get seq s = ok (find (has_seq seq) s.events)

-- `iter_mut().find(p)`, and the change of what it finds.
unfoldable pub modify_first {ℓ} : {A : Type ℓ} → (A → Bool) → (A → A) → List A → List A
modify_first p f [] = []
modify_first p f (x ∷ xs) = if p x then f x ∷ xs else x ∷ modify_first p f xs

-- A change of the event with a sequence number, or the error that there is none.
unfoldable pub modify :
    ℕ → (StoredEvent → StoredEvent) → MemoryStore → Result StorageError (Unit {0}) × MemoryStore
unfolding modify_first
modify seq f s = elim (find (has_seq seq) s.events) [
  | none ↦ (err not_found, s)
  | some _ ↦ (ok tt, record s { events = modify_first (has_seq seq) f s.events })
]

unfoldable pub update_status :
    ℕ → EventStatus → MemoryStore → Result StorageError (Unit {0}) × MemoryStore
unfolding modify
update_status seq status s = modify seq (λ e. record e { status = status }) s

-- `matches!(status, Failed | DeadLettered)`.
abbrev pub counts : DeliveryStatus → Bool
counts status =
    delivery_eq status DeliveryStatus.failed || delivery_eq status DeliveryStatus.dead_lettered

abbrev pub has_subscriber : Text → DeliveryRecord → Bool
has_subscriber id d = text_eq d.subscriber_id id

-- The record of a subscriber that has one.
unfoldable pub update_delivery :
    ℕ → DeliveryStatus → Option Reason → Option ℕ → DeliveryRecord → DeliveryRecord
update_delivery now status error next_retry d = record d {
  status = status;
  attempts = if counts status then next_u32 d.attempts else d.attempts;
  last_attempt = some now;
  error = if counts status then error else d.error;
  next_retry = next_retry;
}

-- The record of a subscriber that has none yet.
unfoldable pub create_delivery :
    ℕ → Text → DeliveryStatus → Option Reason → Option ℕ → DeliveryRecord
create_delivery now subscriber_id status error next_retry = record {
  subscriber_id = subscriber_id;
  status = status;
  attempts = if delivery_eq status DeliveryStatus.failed then 1 else 0;
  last_attempt = some now;
  next_retry = next_retry;
  error = error;
}

unfoldable pub record_in :
    ℕ → Text → DeliveryStatus → Option Reason → Option ℕ → List DeliveryRecord → List DeliveryRecord
unfolding update_delivery create_delivery modify_first
record_in now id status error next_retry ds = elim (find (has_subscriber id) ds) [
  | none ↦ ds ++ create_delivery now id status error next_retry ∷ []
  | some _ ↦ modify_first (has_subscriber id) (update_delivery now status error next_retry) ds
]

-- What `record_delivery` does to the event.
abbrev pub with_delivery :
    ℕ → Text → DeliveryStatus → Option Reason → Option ℕ → StoredEvent → StoredEvent
with_delivery now id status error next_retry e = record e {
  deliveries = record_in now id status error next_retry e.deliveries;
}

unfoldable pub record_delivery :
    ℕ
    → ℕ
    → Text
    → DeliveryStatus
    → Option Reason
    → Option ℕ
    → MemoryStore
    → Result StorageError (Unit {0}) × MemoryStore
unfolding modify record_in
record_delivery now seq id status error next_retry s =
    modify seq (with_delivery now id status error next_retry) s

unfoldable pub query_by_status :
    EventStatus → ℕ → MemoryStore → Result StorageError (List StoredEvent)
query_by_status status limit s = ok (take limit (retain (λ e. status_eq e.status status) s.events))

-- `since.is_none_or(|s| e.seq >= s)`.
abbrev pub from_seq : Option ℕ → StoredEvent → Bool
from_seq none e = true
from_seq (some since) e = leb since e.seq

unfoldable pub query_by_subject :
    Text → Option ℕ → ℕ → MemoryStore → Result StorageError (List StoredEvent)
query_by_subject subject since limit s =
    ok (take limit (retain (λ e. text_eq e.subject subject && from_seq since e) s.events))

abbrev pub retryable_of : StoredEvent → DeliveryRecord → RetryableDelivery
retryable_of e d = record {
  seq = e.seq;
  subject = e.subject;
  subscriber_id = d.subscriber_id;
  attempts = d.attempts;
  payload = e.payload;
  reply_subject = e.reply_subject;
  next_retry = d.next_retry;
}

abbrev pub retryable_in : ℕ → ℕ → StoredEvent → List RetryableDelivery
retryable_in max_attempts now e =
    map (retryable_of e) (retain (λ d. is_retryable d max_attempts now) e.deliveries)

-- The two loops of `query_retryable`.
unfoldable pub scan_retryable : ℕ → ℕ → List StoredEvent → List RetryableDelivery
scan_retryable max_attempts now [] = []
scan_retryable max_attempts now (e ∷ es) =
    retryable_in max_attempts now e ++ scan_retryable max_attempts now es

abbrev pub or_zero : Option ℕ → ℕ
or_zero none = 0
or_zero (some n) = n

unfoldable pub query_retryable :
    ℕ → ℕ → ℕ → MemoryStore → Result StorageError (List RetryableDelivery)
unfolding scan_retryable
query_retryable now max_attempts limit s = ok (
    take limit (sort_by_key (λ r. or_zero r.next_retry) (scan_retryable max_attempts now s.events)))

-- The inner loop of `count_retryable`, from a count.
unfoldable pub count_in : ℕ → ℕ → List DeliveryRecord → ℕ → ℕ
count_in max_attempts now [] count = count
count_in max_attempts now (d ∷ ds) count =
    count_in max_attempts now ds (if is_retryable d max_attempts now then count + 1 else count)

unfoldable pub count_events : ℕ → ℕ → List StoredEvent → ℕ → ℕ
unfolding count_in
count_events max_attempts now [] count = count
count_events max_attempts now (e ∷ es) count =
    count_events max_attempts now es (count_in max_attempts now e.deliveries count)

unfoldable pub count_retryable : ℕ → ℕ → MemoryStore → Result StorageError ℕ
unfolding count_events
count_retryable now max_attempts s = ok (count_events max_attempts now s.events 0)

-- `matches!(e.status, Delivered | DeadLettered)`.
abbrev pub is_terminal : EventStatus → Bool
is_terminal status =
    status_eq status EventStatus.delivered || status_eq status EventStatus.dead_lettered

abbrev pub keeps : ℕ → StoredEvent → Bool
keeps threshold e = not (is_terminal e.status && ltb e.stored_at threshold)

unfoldable pub compact : ℕ → ℕ → MemoryStore → Result StorageError ℕ × MemoryStore
compact now older_than s =
    let kept = retain (keeps (now - older_than)) s.events in
    (ok (length s.events - length kept), record s { events = kept })

-- The trait's default, `EventStore::query_dead_lettered` of storage/mod.rs, which this store keeps.
unfoldable pub query_dead_lettered :
    Option Text → ℕ → MemoryStore → Result StorageError (List StoredEvent)
unfolding query_by_status
query_dead_lettered subject limit s = elim (query_by_status EventStatus.dead_lettered limit s) [
  | err e ↦ err e
  | ok events ↦ ok (elim subject [
    | none ↦ events
    | some wanted ↦ take limit (retain (λ e. text_eq e.subject wanted) events)
  ])
]

abbrev pub requeued : StoredEvent → StoredEvent
requeued e = record e { status = EventStatus.pending; deliveries = [] }

unfoldable pub requeue_dead_lettered :
    ℕ → MemoryStore → Result StorageError StoredEvent × MemoryStore
unfolding modify_first
requeue_dead_lettered seq s = elim (find (has_seq seq) s.events) [
  | none ↦ (err not_found, s)
  | some e ↦
      if status_eq e.status EventStatus.dead_lettered
      then (ok (requeued e), record s { events = modify_first (has_seq seq) requeued s.events })
      else (err (not_dead_lettered seq), s)
]

-- `events.remove(idx)` at the first event with the number.
unfoldable pub remove_first : (StoredEvent → Bool) → List StoredEvent → List StoredEvent
remove_first p [] = []
remove_first p (x ∷ xs) = if p x then xs else x ∷ remove_first p xs

unfoldable pub purge_dead_lettered : ℕ → MemoryStore → Result StorageError (Unit {0}) × MemoryStore
unfolding remove_first
purge_dead_lettered seq s = elim (find (has_seq seq) s.events) [
  | none ↦ (err not_found, s)
  | some e ↦
      if status_eq e.status EventStatus.dead_lettered
      then (ok tt, record s { events = remove_first (has_seq seq) s.events })
      else (err (not_dead_lettered seq), s)
]

abbrev pub Subs : Type 0
Subs = List (Text × PersistedSubscription)

unfoldable pub insert_subscription : Text → PersistedSubscription → Subs → Subs
insert_subscription id sub [] = (id, sub) ∷ []
insert_subscription id sub ((k, v) ∷ m) =
    if text_eq k id then (id, sub) ∷ m else (k, v) ∷ insert_subscription id sub m

unfoldable pub save_subscription :
    PersistedSubscription → MemoryStore → Result StorageError (Unit {0}) × MemoryStore
unfolding insert_subscription
save_subscription sub s =
    (ok tt, record s { subscriptions = insert_subscription sub.persisted_id sub s.subscriptions })

unfoldable pub list_subscriptions : MemoryStore → Result StorageError (List PersistedSubscription)
list_subscriptions s = ok (map (λ ks. ks.1) s.subscriptions)

unfoldable pub delete_subscription :
    Text → MemoryStore → Result StorageError (Unit {0}) × MemoryStore
delete_subscription id s =
    (ok tt, record s { subscriptions = retain (λ ks. not (text_eq ks.0 id)) s.subscriptions })
