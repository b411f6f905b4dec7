-- ===== src/Dispatch/Record.antt =====
-- The engine's parts and `try_record`, which records a delivery of a persisted event.
use seidrum.Base.{ℕ, if◌then◌else◌, Text, Bool, true, false, Option, none, some}
use seidrum.Filter.{Json}
use seidrum.Store.{EventStatus, DeliveryStatus, Reason, delivery_eq, next_u64}
use seidrum.Store.Interface.{EventStore}
use seidrum.Backoff.{RetryConfig, next_retry_after}
use seidrum.Dispatch.{Runtime}

pub record Engine (V S W Sender Interceptor Channel : Type 0) : Type 0 where
  pub store : EventStore S
  pub runtime : Runtime V W Sender Interceptor Channel
  pub retry_config : RetryConfig
  pub json : Json V

-- What changes while events are dispatched: the store, the two counters and the world outside.
pub record Bus (S W : Type 0) : Type 0 where
  pub store : S
  pub events_published : ℕ
  pub events_delivered : ℕ
  pub world : W

module _ {V S W Sender Interceptor Channel : Type 0}
    (en : Engine V S W Sender Interceptor Channel) where
  -- A store operation whose error is only logged.
  unfoldable pub set_status : ℕ → EventStatus → Bool → Bus S W → Bus S W
  set_status seq status true bus = bus
  set_status seq status false bus = record bus {
    store = (en.store.update_status seq status bus.store).1;
  }

  unfoldable pub schedule : DeliveryStatus → W → Option ℕ × W
  schedule status w =
      if delivery_eq status DeliveryStatus.failed
      then (let (draw, w₁) = en.runtime.random_range w in
          let (now, w₂) = en.runtime.now w₁ in
          (some (next_retry_after draw now 1 en.retry_config), w₂))
      else (none, w)

  unfoldable pub count_delivered : DeliveryStatus → ℕ → ℕ
  count_delivered status n = if delivery_eq status DeliveryStatus.delivered then next_u64 n else n

  unfoldable pub try_record : ℕ → Text → DeliveryStatus → Option Reason → Bool → Bus S W → Bus S W
  unfolding schedule count_delivered
  try_record seq id status error is_reply bus =
      let (next_retry, w₁) = schedule status bus.world in
      let (now, w₂) = en.runtime.now w₁ in
      let delivered = count_delivered status bus.events_delivered in
      let reply = record bus { events_delivered = delivered; world = w₁ } in
      let persisted = record bus {
        store = (en.store.record_delivery now seq id status error next_retry bus.store).1;
        events_delivered = delivered;
        world = w₂;
      } in
      if is_reply then reply else persisted
