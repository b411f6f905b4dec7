-- ===== src/Examples/RetryRuns.antt =====
-- Retries over the in-memory store.
use seidrum.Base.{ℕ, Bool, false, codes, text_eq, none, some, [], ◌∷◌, ◌≡◌, refl, arith}
use seidrum.Error.{ok, err}
use seidrum.Subject.{split}
use seidrum.Store.{
  EventStatus, DeliveryStatus, DeliveryRecord, StoredEvent, RetryableDelivery, subscriber_gone,
  is_retryable,
}
use seidrum.Store.Memory
use seidrum.Store.Memory.{MemoryStore}
use seidrum.Store.Memory.Events.{view, IsValid, HasRoom}
use seidrum.Store.Interface.{memory_laws, memory_store}
use seidrum.Backoff.{default_config}
use seidrum.Index.{SubscriptionEntry, async, new, subscribe}
use seidrum.Index.Sort.{sort_by_key}
use seidrum.Index.Contract.{Represents, subscribe-Represents, new-Represents, inserted}
use seidrum.Dispatch.{DispatchState, InterceptOutcome, unsubscribe}
use seidrum.Dispatch.Record.{Bus}
use seidrum.Dispatch.Retry.{retry_to_subscriber, retry_delivery, poll_and_retry, permanent}
use seidrum.Dispatch.Finalize.{readings, Retried, retry_delivery-Retried}
use seidrum.Dispatch.Poll.{Polled, poll_and_retry-Polled}
use seidrum.Dispatch.Gone.{retry_to_subscriber-unsubscribe}
use seidrum.Examples.{Value, entry}
use seidrum.Examples.DispatchRuns.{engine}

abbrev slow : SubscriptionEntry Value
slow = entry "slow" "user" 10 async

abbrev state : DispatchState Value Bool InterceptOutcome
state = record {
  index = inserted slow new;
  senders = (codes "slow", false) ∷ [];
  interceptors = [];
}

abbrev failed_often : DeliveryRecord
failed_often = record {
  subscriber_id = codes "slow";
  status = DeliveryStatus.failed;
  attempts = 4;
  last_attempt = some 100;
  next_retry = some 200;
  error = none;
}

abbrev waiting : StoredEvent
waiting = record {
  seq = 1;
  subject = codes "user";
  payload = codes "hi";
  stored_at = 100;
  status = EventStatus.partially_delivered;
  deliveries = failed_often ∷ [];
  reply_subject = none;
}

abbrev delivery : RetryableDelivery
delivery = record {
  seq = 1;
  subject = codes "user";
  subscriber_id = codes "slow";
  attempts = 4;
  payload = codes "hi";
  reply_subject = none;
  next_retry = some 200;
}

abbrev bus : Bus MemoryStore ℕ
bus = record {
  store = record { events = waiting ∷ []; subscriptions = [] };
  events_published = 1;
  events_delivered = 0;
  world = 300;
}

bus-IsValid : IsValid bus.store
bus-IsValid = (omega arith, tt)

retry_delivery-Retried_example :
    Retried engine [] IsValid HasRoom view memory_laws default_config bus.store delivery waiting
      (readings engine bus.world (retry_to_subscriber engine [] state delivery bus.world).1)
      (retry_to_subscriber engine [] state delivery bus.world).0
      waiting.deliveries
      (retry_delivery engine [] default_config state delivery bus).store
retry_delivery-Retried_example =
    retry_delivery-Retried engine [] IsValid HasRoom view memory_laws default_config state delivery
      waiting bus (omega arith) (omega arith) bus-IsValid refl

subscribe-slow : subscribe slow new ≡ ok (inserted slow new)
unfolding subscribe split text_eq
subscribe-slow = refl

slow-Represents : Represents state.index (slow ∷ [])
slow-Represents = (subscribe-Represents slow new state.index [] subscribe-slow new-Represents).1

retry_to_subscriber-unsubscribe_example :
    retry_to_subscriber engine [] (unsubscribe (codes "slow") state) delivery 300
    ≡ (err (permanent subscriber_gone), 300)
retry_to_subscriber-unsubscribe_example =
    retry_to_subscriber-unsubscribe engine [] state (slow ∷ []) delivery 300 slow-Represents

poll_and_retry-Polled_example :
    Polled engine [] IsValid HasRoom view memory_laws default_config
      (λ i. state)
      bus
      (memory_store.query_retryable 300 5 10 bus.store)
      (poll_and_retry engine [] default_config 10 (λ i. state) bus)
poll_and_retry-Polled_example =
    poll_and_retry-Polled engine [] IsValid HasRoom view memory_laws default_config 10 (λ i. state)
      bus (omega arith) (omega arith) bus-IsValid

-- The poll finds the delivery that is due.
poll_finds_test : memory_store.query_retryable 300 5 10 bus.store ≡ ok (delivery ∷ [])
unfolding Memory.query_retryable sort_by_key is_retryable
poll_finds_test = refl
