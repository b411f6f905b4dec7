-- ===== src/Dispatch/Poll.antt =====
-- A poll of the retry task of delivery/retry.rs.
pub mod Missing
use seidrum.Base.{
  zero, suc, ℕ, ◌==◌, Text, any, Bool, false, ◌||◌, Bool-cases, Option-cases, inl, inr, Option,
  none, some, List, [], ◌∷◌, ◌≡◌, ◌<◌, refl, arith, ◌∙◌, ap, sym,
}
use seidrum.Error.{EventBusError, storage, StorageError, Result, ok, err, Result-cases}
use seidrum.Store.{u32_mod, u64_mod, StoredEvent, RetryableDelivery}
use seidrum.Store.Interface.{StoreLaws}
use seidrum.Backoff.{RetryConfig}
use seidrum.Dispatch.{DispatchState}
use seidrum.Dispatch.Record.{Engine, Bus}
use seidrum.Dispatch.Retry.{retry_to_subscriber, retry_delivery, retry_all, poll_and_retry}
use seidrum.Dispatch.Finalize.{readings, Retried, retry_delivery-Retried}
use seidrum.Dispatch.Poll.Missing.{Untouched, retry_delivery-Untouched}

-- A delivery of the list is of the event under this number.
abbrev pub concerns : List RetryableDelivery → ℕ → Bool
concerns ds j = any (λ d. d.seq == j) ds

module _ {V S W Sender Interceptor Channel : Type 0} (en : Engine V S W Sender Interceptor Channel)
    (channels : List (Text × Channel)) (IsValid HasRoom : S → Type 0)
    (view : S → ℕ → Option StoredEvent) (laws : StoreLaws en.store IsValid HasRoom view)
    (config : RetryConfig) where
  -- What a retry leaves of the event that its number holds, if there is one.
  abbrev pub SteppedFrom :
      DispatchState V Sender Interceptor
      → RetryableDelivery
      → Bus S W
      → Bus S W
      → Option StoredEvent
      → Type 0
  SteppedFrom st d bus after none =
      Untouched en channels IsValid HasRoom view laws bus.store d after.store
  SteppedFrom st d bus after (some e) =
      Retried en channels IsValid HasRoom view laws config bus.store d e
        (readings en bus.world (retry_to_subscriber en channels st d bus.world).1)
        (retry_to_subscriber en channels st d bus.world).0 e.deliveries after.store

  abbrev pub Stepped :
      DispatchState V Sender Interceptor → RetryableDelivery → Bus S W → Bus S W → Type 0
  Stepped st d bus after = SteppedFrom st d bus after (view bus.store d.seq)

  -- One retry after the other, the first with the `i`-th state of the subscriptions.
  abbrev pub Trail :
      (ℕ → DispatchState V Sender Interceptor)
      → ℕ
      → List RetryableDelivery
      → Bus S W
      → Bus S W
      → Type 0
  Trail states i [] bus after = after ≡ bus
  Trail states i (d ∷ ds) bus after =
      (next : Bus S W) × (Stepped (states i) d bus next × Trail states (suc i) ds next after)

  retry_delivery-Stepped :
      (st : DispatchState V Sender Interceptor) (d : RetryableDelivery) (bus : Bus S W)
      → config.max_attempts < u32_mod
      → config.max_backoff_ms < u64_mod
      → IsValid bus.store
      → Stepped st d bus (retry_delivery en channels config st d bus)
  retry_delivery-Stepped st d bus fits short valid = elim (Option-cases (view bus.store d.seq)) [
    | inl missing ↦ rw missing (
        retry_delivery-Untouched en channels IsValid HasRoom view laws bus.store d config st bus
          (record { missing = missing; same = λ j. refl; valid = valid }))
    | inr (e, held) ↦ rw held (
        retry_delivery-Retried en channels IsValid HasRoom view laws config st d e bus fits short
          valid held)
  ]

  SteppedFrom-keeps :
      (st : DispatchState V Sender Interceptor) (d : RetryableDelivery) (bus after : Bus S W)
      (o : Option StoredEvent)
      → SteppedFrom st d bus after o
      → IsValid after.store
        × ((j : ℕ) → (d.seq == j) ≡ false → view after.store j ≡ view bus.store j)
  SteppedFrom-keeps st d bus after none s = (s.valid, λ j other. s.same j)
  SteppedFrom-keeps st d bus after (some e) s = (s.tracked.valid, s.tracked.others)

  retry_all-Trail :
      (states : ℕ → DispatchState V Sender Interceptor) (i : ℕ) (ds : List RetryableDelivery)
      (bus : Bus S W)
      → config.max_attempts < u32_mod
      → config.max_backoff_ms < u64_mod
      → IsValid bus.store
      → Trail states i ds bus (retry_all en channels config states i ds bus)
  unfolding retry_all
  retry_all-Trail states i [] bus fits short valid = refl
  retry_all-Trail states i (d ∷ ds) bus fits short valid =
      let step = retry_delivery-Stepped (states i) d bus fits short valid in
      let next = retry_delivery en channels config (states i) d bus in
      (
        next,
        (
          step,
          retry_all-Trail states (suc i) ds next fits short
              (SteppedFrom-keeps (states i) d bus next _ step).0,
        ),
      )

  -- The store is still valid, and holds other events as it did.
  abbrev pub Kept : List RetryableDelivery → Bus S W → Bus S W → Type 0
  Kept ds bus after =
      IsValid after.store
      × ((j : ℕ) → concerns ds j ≡ false → view after.store j ≡ view bus.store j)

  Trail-Kept :
      (states : ℕ → DispatchState V Sender Interceptor) (i : ℕ) (ds : List RetryableDelivery)
      (bus after : Bus S W)
      → IsValid bus.store
      → Trail states i ds bus after
      → Kept ds bus after
  Trail-Kept states i [] bus after valid t = rw t (valid, λ j none_left. refl)
  Trail-Kept states i (d ∷ ds) bus after valid (next, (step, rest)) =
      let (valid', others) = SteppedFrom-keeps (states i) d bus next _ step in
      let (last, later) = Trail-Kept states (suc i) ds next after valid' rest in
      (last, λ j none_left. later j (ground arith) ∙ others j (ground arith))

  -- How a poll ends whose query had this result.
  abbrev pub Polled :
      (ℕ → DispatchState V Sender Interceptor)
      → Bus S W
      → Result StorageError (List RetryableDelivery)
      → Result EventBusError (Unit {0}) × Bus S W
      → Type 0
  Polled states bus (err e) (r, after) = (r ≡ err (storage e)) × (after.store ≡ bus.store)
  Polled states bus (ok ds) (r, after) =
      (r ≡ ok tt)
      × Trail states zero ds (record bus { world = (en.runtime.now bus.world).1 }) after
      × Kept ds bus after

  -- Over a valid store, with a cap of attempts below 2^32 and a maximal backoff below 2^64, a poll
  -- of the retry task asks the store for the deliveries due now below the cap. If that fails, it
  -- returns the error and leaves the store as it was. Otherwise it succeeds, and retries each of
  -- them in their order, each with the subscriptions of its time: a retry whose event is gone
  -- leaves what the store holds as it was, and any other leaves the record, the time of the next
  -- retry and the status of the event that `Retried` says. The store stays valid and holds the
  -- events that none of the deliveries is of as before.
  pub poll_and_retry-Polled :
      (query_limit : ℕ) (states : ℕ → DispatchState V Sender Interceptor) (bus : Bus S W)
      → config.max_attempts < u32_mod
      → config.max_backoff_ms < u64_mod
      → IsValid bus.store
      → Polled states bus
          (en.store.query_retryable
            (en.runtime.now bus.world).0
            config.max_attempts
            query_limit
            bus.store)
          (poll_and_retry en channels config query_limit states bus)
  unfolding poll_and_retry
  poll_and_retry-Polled query_limit states bus fits short valid =
      let now = (en.runtime.now bus.world).0 in
      let start : Bus S W = record bus { world = (en.runtime.now bus.world).1 } in
      elim (Result-cases (en.store.query_retryable now config.max_attempts query_limit bus.store)) [
        | inl (ds, found) ↦
            let t = retry_all-Trail states zero ds start fits short valid in
            rw (found, poll_and_retry) (refl, t, Trail-Kept states zero ds start _ valid t)
        | inr (e, failed) ↦ rw (failed, poll_and_retry) (refl, refl)
      ]
