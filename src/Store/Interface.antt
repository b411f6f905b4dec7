-- ===== src/Store/Interface.antt =====
-- The event store as the dispatch engine and the retry task see it: the part of the trait
-- `EventStore` of crates/core/seidrum-eventbus/src/storage/mod.rs that they call, the laws that they
-- rely on, and the in-memory store as an instance. `view` is the event under a sequence number.
use seidrum.Base.{ℕ, ◌==◌, if◌then◌else◌, on_some, Text, Option, none, some, ◌≡◌, refl, List}
use seidrum.Error.{Result, ok, StorageError}
use seidrum.Store.{EventStatus, DeliveryStatus, StoredEvent, RetryableDelivery, Reason}
use seidrum.Store.Memory.{MemoryStore, with_delivery, requeued, stamped}
use seidrum.Store.Memory
use seidrum.Store.Memory.Events

pub record EventStore (S : Type 0) : Type 0 where
  pub append : ℕ → StoredEvent → S → Result StorageError ℕ × S
  pub get : ℕ → S → Result StorageError (Option StoredEvent)
  pub update_status : ℕ → EventStatus → S → Result StorageError (Unit {0}) × S
  pub record_delivery :
      ℕ
      → ℕ
      → Text
      → DeliveryStatus
      → Option Reason
      → Option ℕ
      → S
      → Result StorageError (Unit {0}) × S
  pub query_retryable : ℕ → ℕ → ℕ → S → Result StorageError (List RetryableDelivery)
  pub requeue_dead_lettered : ℕ → S → Result StorageError StoredEvent × S

abbrev pub with_status : EventStatus → StoredEvent → StoredEvent
with_status status e = record e { status = status }

pub record StoreLaws {S : Type 0} (store : EventStore S) (IsValid HasRoom : S → Type 0)
    (view : S → ℕ → Option StoredEvent) : Type 0 where
  pub get_view : (q : ℕ) (s : S) → store.get q s ≡ ok (view s q)
  pub update_status_view :
      (q : ℕ) (status : EventStatus) (s : S) (j : ℕ)
      → view (store.update_status q status s).1 j
        ≡ (if q == j then on_some (with_status status) (view s q) else view s j)
  pub update_status_valid :
      (q : ℕ) (status : EventStatus) (s : S)
      → IsValid s
      → IsValid (store.update_status q status s).1
  pub record_delivery_view :
      (now q : ℕ) (id : Text) (status : DeliveryStatus) (error : Option Reason)
      (next_retry : Option ℕ) (s : S) (j : ℕ)
      → view (store.record_delivery now q id status error next_retry s).1 j ≡ (
          if q == j
          then on_some (with_delivery now id status error next_retry) (view s q)
          else view s j)
  pub record_delivery_valid :
      (now q : ℕ) (id : Text) (status : DeliveryStatus) (error : Option Reason)
      (next_retry : Option ℕ) (s : S)
      → IsValid s
      → IsValid (store.record_delivery now q id status error next_retry s).1
  pub append_view :
      (now : ℕ) (event : StoredEvent) (s : S)
      → IsValid s
      → HasRoom s
      → (q : ℕ) × ((store.append now event s).0 ≡ ok q)
        × (view s q ≡ none)
        × ((j : ℕ)
            → view (store.append now event s).1 j
              ≡ (if q == j then some (stamped q now event) else view s j))
        × IsValid (store.append now event s).1
  pub requeue_view :
      (q : ℕ) (e : StoredEvent) (s : S)
      → view s q ≡ some e
      → e.status ≡ EventStatus.dead_lettered
      → ((store.requeue_dead_lettered q s).0 ≡ ok (requeued e))
        × ((j : ℕ)
            → view (store.requeue_dead_lettered q s).1 j
              ≡ (if q == j then some (requeued e) else view s j))
  pub requeue_valid : (q : ℕ) (s : S) → IsValid s → IsValid (store.requeue_dead_lettered q s).1

abbrev pub memory_store : EventStore MemoryStore
memory_store = record {
  append = Memory.append;
  get = Memory.get;
  update_status = Memory.update_status;
  record_delivery = Memory.record_delivery;
  query_retryable = Memory.query_retryable;
  requeue_dead_lettered = Memory.requeue_dead_lettered;
}

get_law : (q : ℕ) (s : MemoryStore) → Memory.get q s ≡ ok (Events.view s q)
unfolding Memory.get
get_law q s = refl

update_status_law :
    (q : ℕ) (status : EventStatus) (s : MemoryStore) (j : ℕ)
    → Events.view (Memory.update_status q status s).1 j
      ≡ (if q == j then on_some (with_status status) (Events.view s q) else Events.view s j)
update_status_law q status s j =
    unfold Memory.update_status in Events.view-modify q (with_status status) s (λ _. refl) j

update_status_keeps :
    (q : ℕ) (status : EventStatus) (s : MemoryStore)
    → Events.IsValid s
    → Events.IsValid (Memory.update_status q status s).1
update_status_keeps q status s v =
    unfold Memory.update_status in Events.modify-IsValid q (with_status status) s (λ _. refl) v

record_delivery_law :
    (now q : ℕ) (id : Text) (status : DeliveryStatus) (error : Option Reason)
    (next_retry : Option ℕ) (s : MemoryStore) (j : ℕ)
    → Events.view (Memory.record_delivery now q id status error next_retry s).1 j ≡ (
        if q == j
        then on_some (with_delivery now id status error next_retry) (Events.view s q)
        else Events.view s j)
record_delivery_law now q id status error next_retry s j =
    unfold Memory.record_delivery in
    Events.view-modify q (with_delivery now id status error next_retry) s (λ _. refl) j

record_delivery_keeps :
    (now q : ℕ) (id : Text) (status : DeliveryStatus) (error : Option Reason)
    (next_retry : Option ℕ) (s : MemoryStore)
    → Events.IsValid s
    → Events.IsValid (Memory.record_delivery now q id status error next_retry s).1
record_delivery_keeps now q id status error next_retry s v =
    unfold Memory.record_delivery in
    Events.modify-IsValid q (with_delivery now id status error next_retry) s (λ _. refl) v

-- The in-memory store implements the event-store interface: each operation changes the event under
-- its number as it says and no other, validity is kept, and `append` uses a free number.
pub memory_laws : StoreLaws memory_store Events.IsValid Events.HasRoom Events.view
memory_laws = record {
  get_view = get_law;
  update_status_view = update_status_law;
  update_status_valid = update_status_keeps;
  record_delivery_view = record_delivery_law;
  record_delivery_valid = record_delivery_keeps;
  append_view = λ now event s v room.
      let (given, free, others, valid) = Events.view-append now event s v room in
      (Memory.next_seq s.events, given, free, others, valid);
  requeue_view = λ q e s found dead. Events.requeue-view q e s found dead;
  requeue_valid = Events.requeue-IsValid;
}
