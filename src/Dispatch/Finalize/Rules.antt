-- ===== src/Dispatch/Finalize/Rules.antt =====
-- How the retry task of delivery/retry.rs judges a delivery, and what an event's status becomes of its
-- records.
use seidrum.Base.{
  ℕ, ◌+◌, ◌-◌, ◌*◌, ◌/◌, ◌%◌, ◌^◌, min, max, ◌≤◌, ◌<◌, Text, any, find, Bool, true, false, not,
  Option, none, some, List, [], ◌∷◌, ◌≡◌, refl, arith,
}
use seidrum.Error.{Result, ok, err}
use seidrum.Store.{
  EventStatus, DeliveryStatus, DeliveryRecord, Reason, attempts_exceeded, attempts_exhausted,
  dead_letter, u64_mod,
}
use seidrum.Store.Memory.{record_in, has_subscriber, create_delivery, update_delivery}
use seidrum.Store.Memory.Outcomes.{AllDelivered}
use seidrum.Store.Memory.Deliveries.{find-record_in, next_record}
use seidrum.Backoff.{RetryConfig, next_retry_after, calculate_backoff, jitter_range, capped_ms-min}
use seidrum.Dispatch.Retry.{RetryOutcome, transient, permanent, is_final, is_dead}

-- A record that is neither delivered nor dead-lettered.
abbrev pub is_open : DeliveryRecord → Bool
is_open d = not (is_final d)

-- What becomes of an event's status once its records are these: nothing while one is open; then
-- dead-lettered if one is, and delivered if all are.
pub data Finalized : List DeliveryRecord → EventStatus → EventStatus → Type 0 where
  still_open :
      {ds : List DeliveryRecord} {s : EventStatus} → any is_open ds ≡ true → Finalized ds s s
  with_dead :
      {ds : List DeliveryRecord} {s : EventStatus}
      → any is_open ds ≡ false
      → any is_dead ds ≡ true
      → Finalized ds s EventStatus.dead_lettered
  all_delivered :
      {ds : List DeliveryRecord} {s : EventStatus}
      → AllDelivered ds
      → Finalized ds s EventStatus.delivered

pub none_dead :
    (ds : List DeliveryRecord) → any is_open ds ≡ false → any is_dead ds ≡ false → AllDelivered ds
none_dead [] o l = tt
none_dead (d ∷ ds) o l = ground (arith, none_dead ds)

found-is_open :
    (p : DeliveryRecord → Bool) (ds : List DeliveryRecord) (d : DeliveryRecord)
    → find p ds ≡ some d
    → is_open d ≡ true
    → any is_open ds ≡ true
found-is_open p [] d h o = cc
found-is_open p (c ∷ ds) d h o = ground (arith, found-is_open p ds d)

-- What a retry may read of the clock and the random numbers: the time before the subscriber is
-- called and after it, the time from which the wait counts, the time after that, and the draw.
pub record Readings : Type 0 where
  pub at_start : ℕ
  pub after_call : ℕ
  pub wait_from : ℕ
  pub after_wait : ℕ
  pub draw : ℕ → ℕ

-- The wait after some attempts and one more: the initial time doubled by each of them, at most the
-- maximum, less the number drawn for the range of a quarter of that, at least 1.
abbrev pub wait : RetryConfig → ℕ → (ℕ → ℕ) → ℕ
wait config attempts draw =
    let capped = min (config.initial_backoff_ms * 2 ^ attempts) config.max_backoff_ms in
    capped - draw (max (capped / 4) 1)

pub next_retry_after-wait :
    (config : RetryConfig) (attempts : ℕ) (draw : ℕ → ℕ) (now : ℕ)
    → config.max_backoff_ms < u64_mod
    → next_retry_after draw now (attempts + 1) config ≡ (now + wait config attempts draw) % u64_mod
unfolding next_retry_after calculate_backoff jitter_range
next_retry_after-wait config attempts draw now short =
    rw (capped_ms-min attempts config.initial_backoff_ms config.max_backoff_ms short) refl

-- How a delivery is recorded, by the result of the retry and the attempts before it, and when.
pub data Judged (attempts : ℕ) (config : RetryConfig) (times : Readings) (message : Option Reason)
    : Result RetryOutcome (Unit {0}) → DeliveryStatus → Option ℕ → ℕ → Type 0 where
  exceeded :
      {r : Result RetryOutcome (Unit {0})}
      → config.max_attempts ≤ attempts
      → message ≡ some (dead_letter attempts_exceeded)
      → Judged attempts config times message r DeliveryStatus.dead_lettered none times.at_start
  succeeded :
      attempts < config.max_attempts
      → message ≡ none
      → Judged attempts config times message (ok tt) DeliveryStatus.delivered none times.after_call
  again :
      {why : Reason}
      → attempts + 1 < config.max_attempts
      → message ≡ some why
      → Judged attempts config times message
          (err (transient why))
          DeliveryStatus.failed
          (some ((times.wait_from + wait config attempts times.draw) % u64_mod))
          times.after_wait
  exhausted :
      {why : Reason}
      → attempts + 1 ≡ config.max_attempts
      → message ≡ some (dead_letter (attempts_exhausted config.max_attempts why))
      → Judged attempts config times message
          (err (transient why))
          DeliveryStatus.dead_lettered
          none
          times.after_call
  hopeless :
      {why : Reason}
      → attempts < config.max_attempts
      → message ≡ some (dead_letter why)
      → Judged attempts config times message
          (err (permanent why))
          DeliveryStatus.dead_lettered
          none
          times.after_call

next_record_status :
    (now : ℕ) (id : Text) (status : DeliveryStatus) (error : Option Reason) (next_retry : Option ℕ)
    (o : Option DeliveryRecord)
    → (next_record now id status error next_retry o).status ≡ status
unfolding create_delivery update_delivery
next_record_status now id status error next_retry none = refl
next_record_status now id status error next_retry (some d) = refl

-- A failed delivery is open.
pub record_in-is_open :
    (now : ℕ) (id : Text) (error : Option Reason) (next_retry : Option ℕ) (ds : List DeliveryRecord)
    → any is_open (record_in now id DeliveryStatus.failed error next_retry ds) ≡ true
record_in-is_open now id error next_retry ds =
    let o = find (has_subscriber id) ds in
    let d = next_record now id DeliveryStatus.failed error next_retry o in
    found-is_open (has_subscriber id) _ d
      (find-record_in now id DeliveryStatus.failed error next_retry ds).0
      (rw (next_record_status now id DeliveryStatus.failed error next_retry o))
