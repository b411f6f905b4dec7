-- ===== src/Examples/DispatchRuns.antt =====
-- A publish from end to end over the in-memory store.
use seidrum.Base.{
  ◌⊎◌, text_eq, Option, ◌≢◌, ℕ, ◌==◌, Text, codes, starts_with, retain, Bool, true, false, none,
  some, List, [], ◌∷◌, ◌≡◌, refl, arith,
}
use seidrum.Error.{ok}
use seidrum.Store.{EventStatus, dispatching, DeliveryRecord, StoredEvent, is_retryable}
use seidrum.Store.Memory
use seidrum.Store.Memory.{MemoryStore, stamped, query_retryable, compact}
use seidrum.Store.Memory.Events.{view, IsValid, HasRoom}
use seidrum.Store.Interface.{memory_store, memory_laws}
use seidrum.Backoff.{default_config}
use seidrum.Index.{sync, async, new, lookup, insert}
use seidrum.Index.Sort.{sort_by_key}
use seidrum.Subject.{split}
use seidrum.Index.Contract.{inserted}
use seidrum.Dispatch.{DispatchState, InterceptOutcome, pass, panicked}
use seidrum.Dispatch.Record.{Engine, Bus, set_status, try_record}
use seidrum.Dispatch.Publish.{
  persist, dispatch_persisted_event, deliver_all, Reads, wants, new_event, job_of, reply_prefix,
  validate_publish, publish_event, replay_dead_lettered,
}
use seidrum.Dispatch.Api.{publish, Refused, Stored, publish_decides}
use seidrum.Dispatch.Replay.{requeued_bus, replay_dead_lettered-recorded}
use seidrum.Dispatch.Delivery.{Verdict}
use seidrum.Dispatch.Published.{appended, publish_event-recorded}
use seidrum.Examples.{Value, json, entry, runtime}

abbrev pub engine : Engine Value MemoryStore ℕ Bool InterceptOutcome (Unit {0})
engine = record {
  store = memory_store;
  runtime = runtime;
  retry_config = default_config;
  json = json;
}

-- An interceptor, a subscriber with a full channel and one with room.
abbrev state : DispatchState Value Bool InterceptOutcome
state = record {
  index =
      inserted (entry "guard" ">" 1 sync) (
        inserted (entry "slow" "user.*" 10 async)
          (inserted (entry "fast" "user.ann" 10 async) new));
  senders = (codes "slow", false) ∷ (codes "fast", true) ∷ [];
  interceptors = (codes "guard", pass (codes "checked")) ∷ [];
}

abbrev reads : Reads Value Bool InterceptOutcome
reads = record { resolve = state; for_sync = state; for_async = state }

abbrev bus : Bus MemoryStore ℕ
bus = record { store = Memory.new; events_published = 0; events_delivered = 0; world = 0 }

abbrev user_ann : Text
user_ann = codes "user.ann"

new-HasRoom : HasRoom Memory.new
new-HasRoom = omega arith

checks_pass : validate_publish engine none user_ann (codes "hi") ≡ ok tt
unfolding validate_publish
checks_pass = refl

no_reply : starts_with (reply_prefix engine) user_ann ≡ false
unfolding starts_with reply_prefix
no_reply = refl

publish_event-recorded_example :
    let (result, bus') = publish_event engine reads none user_ann (codes "hi") none bus in
    (q : ℕ) × (status : EventStatus) × (ds : List DeliveryRecord) × (result ≡ ok q)
    × (view Memory.new q ≡ none)
    × (view bus'.store q
        ≡ some (record (stamped q 0 (new_event engine user_ann (codes "hi") none)) {
          status = status;
          deliveries = ds;
        }))
    × ((j : ℕ) → (q == j) ≡ false → view bus'.store j ≡ view Memory.new j)
    × IsValid bus'.store
    × Verdict engine reads
        (job_of engine q user_ann none false)
        (codes "hi")
        (retain (wants engine (codes "hi")) (lookup user_ann reads.resolve.index))
        (set_status engine q dispatching false
          (appended engine IsValid HasRoom view memory_laws user_ann (codes "hi") none bus))
        status
        ds
publish_event-recorded_example =
    publish_event-recorded engine IsValid HasRoom view memory_laws reads none user_ann (codes "hi")
      none bus checks_pass no_reply tt new-HasRoom

abbrev lost : StoredEvent
lost = record {
  seq = 1;
  subject = user_ann;
  payload = codes "hi";
  stored_at = 100;
  status = EventStatus.dead_lettered;
  deliveries = [];
  reply_subject = none;
}

abbrev lost_bus : Bus MemoryStore ℕ
lost_bus = record bus { store = record { events = lost ∷ []; subscriptions = [] } }

lost-IsValid : IsValid lost_bus.store
lost-IsValid = (omega arith, tt)

replay_dead_lettered-recorded_example :
    let (result, bus') = replay_dead_lettered engine reads 1 lost_bus in
    (status : EventStatus) × (ds : List DeliveryRecord) × (result ≡ ok 1)
    × (view bus'.store 1 ≡ some (record lost { status = status; deliveries = ds }))
    × ((j : ℕ) → (1 == j) ≡ false → view bus'.store j ≡ view lost_bus.store j)
    × IsValid bus'.store
    × Verdict engine reads
        (job_of engine 1 user_ann none false)
        (codes "hi")
        (retain (wants engine (codes "hi")) (lookup user_ann reads.resolve.index))
        (set_status engine 1 dispatching false
          (requeued_bus engine IsValid HasRoom view memory_laws 1 lost_bus))
        status
        ds
replay_dead_lettered-recorded_example =
    replay_dead_lettered-recorded engine IsValid HasRoom view memory_laws reads 1 lost lost_bus
      lost-IsValid refl refl

none_there : (e : StoredEvent) → view bus.store 7 ≡ some e → e.status ≢ EventStatus.dead_lettered
none_there e h = cc

abbrev panicking : DispatchState Value Bool InterceptOutcome
panicking = record {
  index = inserted (entry "guard" ">" 1 sync) new;
  senders = [];
  interceptors = (codes "guard", panicked) ∷ [];
}

abbrev after_panic : Bus MemoryStore ℕ
after_panic =
    (publish_event engine
      (record { resolve = panicking; for_sync = panicking; for_async = panicking }) none user_ann
      (codes "hi") none bus).1

abbrev status_of : Option StoredEvent → Option EventStatus
status_of none = none
status_of (some e) = some e.status

-- An event whose interceptor panicked waits for a retry that is never offered, and no compaction
-- removes it.
panic_stays :
    (status_of (view after_panic.store 1) ≡ some EventStatus.partially_delivered)
    × (query_retryable 100000 5 10 after_panic.store ≡ ok [])
    × ((compact 100000 0 after_panic.store).0 ≡ ok 0)
unfolding publish_event validate_publish reply_prefix starts_with persist Memory.append
    Memory.next_seq new_event dispatch_persisted_event lookup split insert text_eq sort_by_key wants
    deliver_all set_status Memory.update_status Memory.record_delivery query_retryable is_retryable
    compact try_record
panic_stays = (refl, refl, refl)

publish_decides_example :
    Refused engine IsValid HasRoom view memory_laws bus
      (publish engine reads none user_ann (codes "hi") bus)
    ⊎ Stored engine IsValid HasRoom view memory_laws user_ann
        (codes "hi")
        bus
        (publish engine reads none user_ann (codes "hi") bus)
publish_decides_example =
    publish_decides engine IsValid HasRoom view memory_laws reads none user_ann (codes "hi") bus tt
      new-HasRoom
