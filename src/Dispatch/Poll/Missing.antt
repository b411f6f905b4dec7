-- ===== src/Dispatch/Poll/Missing.antt =====
-- A retry by the retry task of delivery/retry.rs of a delivery whose event is gone.
use seidrum.Base.{
  ℕ, ◌==◌, if◌then◌else◌, on_some, Text, leb, Bool-cases, inl, inr, Option, none, some, List, ◌≡◌,
  refl, sym, arith, ◌∙◌, ap,
}
use seidrum.Error.{Result, ok, err}
use seidrum.Store.{next_u32, DeliveryStatus, StoredEvent, RetryableDelivery, Reason}
use seidrum.Store.Interface.{StoreLaws}
use seidrum.Backoff.{RetryConfig}
use seidrum.Dispatch.{DispatchState}
use seidrum.Dispatch.Record.{Engine, Bus}
use seidrum.Dispatch.Retry.{
  RetryOutcome, transient, permanent, maybe_finalize_event, record_retry, dead_letter_delivery,
  retry_later, after_retry, retry_delivery,
}

module _ {V S W Sender Interceptor Channel : Type 0} (en : Engine V S W Sender Interceptor Channel)
    (channels : List (Text × Channel)) (IsValid HasRoom : S → Type 0)
    (view : S → ℕ → Option StoredEvent) (laws : StoreLaws en.store IsValid HasRoom view) (base : S)
    (d : RetryableDelivery) where
  -- The store is valid and holds what `base` holds, nothing under the number of the delivery.
  pub record Untouched (s : S) : Type 0 where
    pub missing : view s d.seq ≡ none
    pub same : (j : ℕ) → view s j ≡ view base j
    pub valid : IsValid s

  -- A change of the event under the number.
  changed :
      (f : StoredEvent → StoredEvent) (s s' : S)
      → IsValid s'
      → ((j : ℕ) → view s' j ≡ (if d.seq == j then on_some f (view s d.seq) else view s j))
      → Untouched s
      → Untouched s'
  changed f s s' valid after h =
      let same : (j : ℕ) → view s' j ≡ view s j = λ j. elim (Bool-cases (d.seq == j)) [
        | inl here ↦
            let e : d.seq ≡ j = ground (arith, here) in
            after j ∙ rw (here, h.missing) (sym h.missing ∙ ap (view s) e)
        | inr elsewhere ↦ after j ∙ rw elsewhere refl
      ] in
      record { missing = same d.seq ∙ h.missing; same = λ j. same j ∙ h.same j; valid = valid }

  recorded :
      (status : DeliveryStatus) (error : Option Reason) (next_retry : Option ℕ) (bus : Bus S W)
      → Untouched bus.store
      → Untouched (record_retry en channels d status error next_retry bus).store
  unfolding record_retry
  recorded status error next_retry bus h =
      let now = (en.runtime.now bus.world).0 in
      changed _ bus.store _
        (laws.record_delivery_valid now d.seq d.subscriber_id status error next_retry bus.store
          h.valid)
        (laws.record_delivery_view now d.seq d.subscriber_id status error next_retry bus.store) h

  finalized :
      (bus : Bus S W)
      → Untouched bus.store
      → Untouched (maybe_finalize_event en channels d.seq bus).store
  unfolding maybe_finalize_event
  finalized bus h = rw (laws.get_view d.seq bus.store, h.missing, maybe_finalize_event) h

  dead_lettered :
      (reason : Reason) (bus : Bus S W)
      → Untouched bus.store
      → Untouched (dead_letter_delivery en channels d reason bus).store
  unfolding dead_letter_delivery
  dead_lettered reason bus h = finalized _ (recorded DeliveryStatus.dead_lettered _ none bus h)

  retried_later :
      (config : RetryConfig) (why : Reason) (bus : Bus S W)
      → Untouched bus.store
      → Untouched (retry_later en channels config d why bus).store
  unfolding retry_later
  retried_later config why bus h =
      elim (Bool-cases (leb config.max_attempts (next_u32 d.attempts))) [
        | inl last ↦ rw last (dead_lettered _ bus h)
        | inr more ↦ rw more (
            recorded DeliveryStatus.failed (some why) _
              (record bus { world = (en.runtime.now (en.runtime.random_range bus.world).1).1 }) h)
      ]

  after_retry-Untouched :
      (config : RetryConfig) (r : Result RetryOutcome (Unit {0})) (bus : Bus S W)
      → Untouched bus.store
      → Untouched (after_retry en channels config d r bus).store
  unfolding after_retry
  after_retry-Untouched config (ok _) bus h =
      finalized _ (recorded DeliveryStatus.delivered none none bus h)
  after_retry-Untouched config (err (transient why)) bus h = retried_later config why bus h
  after_retry-Untouched config (err (permanent why)) bus h = dead_lettered why bus h

  pub retry_delivery-Untouched :
      (config : RetryConfig) (st : DispatchState V Sender Interceptor) (bus : Bus S W)
      → Untouched bus.store
      → Untouched (retry_delivery en channels config st d bus).store
  unfolding retry_delivery
  retry_delivery-Untouched config st bus h =
      elim (Bool-cases (leb config.max_attempts d.attempts)) [
        | inl over ↦ rw over (dead_lettered _ bus h)
        | inr below ↦ rw below (after_retry-Untouched config _ (record bus { world = _ }) h)
      ]
