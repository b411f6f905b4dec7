-- ===== src/Dispatch/Finalize.antt =====
-- A retry by the retry task of delivery/retry.rs and the store at its end.
pub mod Rules
pub mod Closes
use seidrum.Base.{
  retain, ℕ, ◌+◌, ◌≤◌, ◌<◌, ◌%◌, leb, Text, any, find, Bool-cases, inl, inr, Bool, true, false, not,
  Option, none, some, List, [], ◌∷◌, ◌≡◌, refl, arith,
}
use seidrum.Error.{Result, ok, err}
use seidrum.Store.{
  subscriber_gone, EventStatus, DeliveryStatus, DeliveryRecord, StoredEvent, RetryableDelivery,
  Reason, attempts_exceeded, attempts_exhausted, dead_letter, next_u32, u32_mod, u64_mod,
}
use seidrum.Store.Memory.{record_in, has_subscriber, create_delivery, update_delivery}
use seidrum.Store.Memory.Outcomes.{AllDelivered}
use seidrum.Store.Memory.Deliveries.{find-record_in, next_record}
use seidrum.Store.Interface.{StoreLaws, with_status}
use seidrum.Backoff.{RetryConfig, next_retry_after, calculate_backoff, capped_ms-min, jitter_range}
use seidrum.Dispatch.Record.{Engine, Bus}
use seidrum.Dispatch.Effects.{Tracked, Tracked-update_status, Tracked-record_delivery}
use seidrum.Index.{SubscriptionEntry, has_id}
use seidrum.Index.Contract.{Represents, find_by_id-none, unsubscribe-Represents}
use seidrum.Index.Remove.{other_id}
use seidrum.Dispatch.{DispatchState, unsubscribe}
use seidrum.Dispatch.Retry.{
  after_retry, retry_delivery, retry_to_subscriber, RetryOutcome, transient, permanent,
  maybe_finalize_event, record_retry, dead_letter_delivery, retry_later, is_final, is_dead,
}
use seidrum.Dispatch.Finalize.Rules.{
  is_open, Finalized, still_open, with_dead, all_delivered, none_dead, Readings,
  next_retry_after-wait, Judged, exceeded, succeeded, again, exhausted, hopeless, record_in-is_open,
}
use seidrum.Dispatch.Finalize.Closes.{maybe_finalize-Closes}

module _ {V S W Sender Interceptor Channel : Type 0}
    (en : Engine V S W Sender Interceptor Channel) where
  -- What a retry reads that starts in `w` and whose call ends in `after`.
  abbrev pub readings : W → W → Readings
  readings w after =
      let (draw, w₁) = en.runtime.random_range after in
      let (wait_from, w₂) = en.runtime.now w₁ in
      record {
        at_start = (en.runtime.now w).0;
        after_call = (en.runtime.now after).0;
        wait_from = wait_from;
        after_wait = (en.runtime.now w₂).0;
        draw = draw;
      }

module _ {V S W Sender Interceptor Channel : Type 0} (en : Engine V S W Sender Interceptor Channel)
    (channels : List (Text × Channel)) (IsValid HasRoom : S → Type 0)
    (view : S → ℕ → Option StoredEvent) (laws : StoreLaws en.store IsValid HasRoom view)
    (config : RetryConfig) (base : S) (d : RetryableDelivery) (e : StoredEvent) where
  -- How the store stands after a retry with these readings and this result, from the records `ds`.
  pub record Retried (times : Readings) (r : Result RetryOutcome (Unit {0}))
      (ds : List DeliveryRecord) (s : S) : Type 0 where
    pub now : ℕ
    pub status : DeliveryStatus
    pub message : Option Reason
    pub next_retry : Option ℕ
    pub final : EventStatus
    pub judged : Judged d.attempts config times message r status next_retry now
    pub tracked :
        Tracked en IsValid HasRoom view laws base d.seq
          (with_status final e)
          (record_in now d.subscriber_id status message next_retry ds)
          s
    pub finalized :
        Finalized (record_in now d.subscriber_id status message next_retry ds) e.status final

  abbrev From : List DeliveryRecord → S → Type 0
  From = Tracked en IsValid HasRoom view laws base d.seq e

  recorded :
      (status : DeliveryStatus) (message : Option Reason) (next_retry : Option ℕ)
      (ds : List DeliveryRecord) (bus : Bus S W)
      → From ds bus.store
      → From
          (record_in (en.runtime.now bus.world).0 d.subscriber_id status message next_retry ds)
          (record_retry en channels d status message next_retry bus).store
  unfolding record_retry
  recorded status message next_retry ds bus t =
      Tracked-record_delivery en IsValid HasRoom view laws base d.seq e ds bus.store
        (en.runtime.now bus.world).0 d.subscriber_id status message next_retry t

  closed :
      (times : Readings) (r : Result RetryOutcome (Unit {0})) (status : DeliveryStatus)
      (message : Option Reason) (ds : List DeliveryRecord) (bus : Bus S W)
      → Judged d.attempts config times message r status none (en.runtime.now bus.world).0
      → From ds bus.store
      → Retried times r ds
          (maybe_finalize_event en channels d.seq
            (record_retry en channels d status message none bus)).store
  closed times r status message ds bus j t =
      let (final, tracked, finalized) =
        maybe_finalize-Closes en channels IsValid HasRoom view laws base d.seq e
          (record_in (en.runtime.now bus.world).0 d.subscriber_id status message none ds)
          (record_retry en channels d status message none bus)
          (recorded status message none ds bus t) in
      record {
        now = (en.runtime.now bus.world).0;
        status = status;
        message = message;
        next_retry = none;
        final = final;
        judged = j;
        tracked = tracked;
        finalized = finalized;
      }

  retry_later-Retried :
      (start : W) (why : Reason) (ds : List DeliveryRecord) (bus : Bus S W)
      → config.max_attempts < u32_mod
      → config.max_backoff_ms < u64_mod
      → d.attempts < config.max_attempts
      → From ds bus.store
      → Retried
          (readings en start bus.world)
          (err (transient why))
          ds
          (retry_later en channels config d why bus).store
  unfolding retry_later dead_letter_delivery next_u32
  retry_later-Retried start why ds bus fits short below t =
      let same : (d.attempts + 1) % u32_mod ≡ d.attempts + 1 = omega arith in
      let draw = (en.runtime.random_range bus.world).0 in
      let w = en.runtime.now (en.runtime.random_range bus.world).1 in
      elim (Bool-cases (leb config.max_attempts (d.attempts + 1))) [
        | inl last ↦
            rw (same, last)
              (closed (readings en start bus.world) (err (transient why))
                DeliveryStatus.dead_lettered _ ds bus (exhausted (ground arith) refl) t)
        | inr more ↦
            rw (same, more)
              (record {
                now = (en.runtime.now w.1).0;
                next_retry = some (next_retry_after draw w.0 (d.attempts + 1) config);
                status = DeliveryStatus.failed;
                message = some why;
                judged =
                    rw (next_retry_after-wait config d.attempts draw w.0 short)
                      (again (ground arith) refl);
                final = e.status;
                tracked =
                    recorded DeliveryStatus.failed (some why) _ ds (record bus { world = w.1 }) t;
                finalized = still_open (record_in-is_open _ d.subscriber_id (some why) _ ds);
              })
      ]

  after_retry-Retried :
      (start : W) (r : Result RetryOutcome (Unit {0})) (ds : List DeliveryRecord) (bus : Bus S W)
      → config.max_attempts < u32_mod
      → config.max_backoff_ms < u64_mod
      → d.attempts < config.max_attempts
      → From ds bus.store
      → Retried (readings en start bus.world) r ds (after_retry en channels config d r bus).store
  unfolding after_retry dead_letter_delivery
  after_retry-Retried start (ok _) ds bus fits short below t =
      closed (readings en start bus.world) (ok tt) DeliveryStatus.delivered none ds bus
        (succeeded below refl) t
  after_retry-Retried start (err (transient why)) ds bus fits short below t =
      retry_later-Retried start why ds bus fits short below t
  after_retry-Retried start (err (permanent why)) ds bus fits short below t =
      closed (readings en start bus.world) (err (permanent why)) DeliveryStatus.dead_lettered _ ds
        bus (hopeless below refl) t

  retry_delivery-From :
      (st : DispatchState V Sender Interceptor) (ds : List DeliveryRecord) (bus : Bus S W)
      → config.max_attempts < u32_mod
      → config.max_backoff_ms < u64_mod
      → From ds bus.store
      → Retried
          (readings en bus.world (retry_to_subscriber en channels st d bus.world).1)
          (retry_to_subscriber en channels st d bus.world).0
          ds
          (retry_delivery en channels config st d bus).store
  unfolding retry_delivery dead_letter_delivery
  retry_delivery-From st ds bus fits short t =
      elim (Bool-cases (leb config.max_attempts d.attempts)) [
        | inl over ↦ rw over (
            closed (readings en bus.world (retry_to_subscriber en channels st d bus.world).1)
              (retry_to_subscriber en channels st d bus.world).0 DeliveryStatus.dead_lettered _ ds
              bus (exceeded (ground arith) refl) t)
        | inr below ↦ rw below (
            after_retry-Retried bus.world (retry_to_subscriber en channels st d bus.world).0 ds
              (record bus { world = (retry_to_subscriber en channels st d bus.world).1 }) fits short
              (ground arith) t)
      ]

module _ {V S W Sender Interceptor Channel : Type 0} (en : Engine V S W Sender Interceptor Channel)
    (channels : List (Text × Channel)) (IsValid HasRoom : S → Type 0)
    (view : S → ℕ → Option StoredEvent) (laws : StoreLaws en.store IsValid HasRoom view) where
  -- A retry of a delivery of a stored event, over a valid store and with a cap of attempts below
  -- 2^32 and a maximal backoff below 2^64, writes one record for the subscriber, at the time then
  -- read, and leaves other numbers as they were. A success is delivered; a transient failure below
  -- the cap is failed, to be retried when the wait since the time read has passed, modulo 2^64:
  -- the initial backoff, doubled by each attempt before, at most the maximum, less the number
  -- drawn for the range of a quarter of that, at least 1; a transient failure that reaches the
  -- cap, a permanent failure and a delivery already at the cap are dead-lettered. Then the event
  -- keeps its status while a record is open, is dead-lettered if a record is, and is delivered if
  -- all records are.
  pub retry_delivery-Retried :
      (config : RetryConfig) (st : DispatchState V Sender Interceptor) (d : RetryableDelivery)
      (e : StoredEvent) (bus : Bus S W)
      → config.max_attempts < u32_mod
      → config.max_backoff_ms < u64_mod
      → IsValid bus.store
      → view bus.store d.seq ≡ some e
      → Retried en channels IsValid HasRoom view laws config bus.store d e
          (readings en bus.world (retry_to_subscriber en channels st d bus.world).1)
          (retry_to_subscriber en channels st d bus.world).0
          e.deliveries
          (retry_delivery en channels config st d bus).store
  retry_delivery-Retried config st d e bus fits short valid held =
      retry_delivery-From en channels IsValid HasRoom view laws config bus.store d e st e.deliveries
        bus fits short (record { held = held; others = λ j ne. refl; valid = valid })
