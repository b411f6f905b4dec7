-- ===== src/Dispatch/Retry.antt =====
-- Retries: `retry_to_subscriber` of dispatch/engine.rs and `RetryTask` of delivery/retry.rs. The
-- subscriptions may change between two retries of a poll: the state behind the lock is an argument.
use seidrum.Base.{
  ℕ, suc, if◌then◌else◌, leb, Text, any, Bool, not, ◌||◌, Option, none, some, List, [], ◌∷◌,
}
use seidrum.Error.{Result, ok, err, EventBusError, storage}
use seidrum.Channel.{
  ChannelConfig, in_process, web_socket, webhook, custom, DeliveryError, failed, not_ready,
}
use seidrum.Store.{
  EventStatus, DeliveryStatus, delivery_eq, DeliveryRecord, RetryableDelivery, Reason, said,
  displayed, sender_full, sender_closed, subscriber_gone, not_retryable, channel_unregistered,
  sender_unregistered, attempts_exceeded, attempts_exhausted, dead_letter, next_u32,
}
use seidrum.Index.{find_by_id}
use seidrum.Backoff.{RetryConfig, next_retry_after}
use seidrum.Dispatch.{DispatchedEvent, DispatchState, SendOutcome, sent, full, closed, get}
use seidrum.Dispatch.Record.{Engine, Bus}

pub data RetryOutcome : Type 0 where
  transient permanent : Reason → RetryOutcome

-- What a channel's error means for a retry.
unfoldable pub channel_result : Result DeliveryError (Unit {0}) → Result RetryOutcome (Unit {0})
channel_result (ok _) = ok tt
channel_result (err (DeliveryError.permanent message)) = err (permanent (said message))
channel_result (err (failed message)) = err (transient (displayed (failed message)))
channel_result (err not_ready) = err (transient (displayed not_ready))

unfoldable pub send_result : SendOutcome → Result RetryOutcome (Unit {0})
send_result sent = ok tt
send_result full = err (transient sender_full)
send_result closed = err (transient sender_closed)

-- `matches!(d.status, Delivered | DeadLettered)`.
abbrev pub is_final : DeliveryRecord → Bool
is_final d =
    delivery_eq d.status DeliveryStatus.delivered
    || delivery_eq d.status DeliveryStatus.dead_lettered

abbrev pub is_dead : DeliveryRecord → Bool
is_dead d = delivery_eq d.status DeliveryStatus.dead_lettered

module _ {V S W Sender Interceptor Channel : Type 0} (en : Engine V S W Sender Interceptor Channel)
    (channels : List (Text × Channel)) where
  -- Through the channel of the subscription, which is live.
  unfoldable pub retry_through :
      ChannelConfig V → Option Sender → RetryableDelivery → W → Result RetryOutcome (Unit {0}) × W
  unfolding get channel_result send_result
  retry_through (webhook url headers) sender d w =
      let (result, w₁) = en.runtime.deliver_webhook d.payload d.subject (webhook url headers) w in
      (channel_result result, w₁)
  retry_through (custom channel_type config) sender d w = elim (get channel_type channels) [
    | none ↦ (err (permanent channel_unregistered), w)
    | some channel ↦
        let (result, w₁) =
          en.runtime.deliver channel d.payload d.subject (custom channel_type config) w in
        (channel_result result, w₁)
  ]
  retry_through in_process none d w = (err (permanent sender_unregistered), w)
  retry_through in_process (some tx) d w =
      let event : DispatchedEvent = record {
        payload = d.payload;
        reply_subject = d.reply_subject;
        subject = d.subject;
        seq = d.seq;
      } in
      let (outcome, w₁) = en.runtime.try_send tx event w in (send_result outcome, w₁)
  retry_through web_socket sender d w = (err (permanent not_retryable), w)

  unfoldable pub retry_to_subscriber :
      DispatchState V Sender Interceptor
      → RetryableDelivery
      → W
      → Result RetryOutcome (Unit {0}) × W
  unfolding get retry_through
  retry_to_subscriber st d w = elim (find_by_id d.subscriber_id st.index) [
    | none ↦ (err (permanent subscriber_gone), w)
    | some entry ↦ retry_through entry.channel (get d.subscriber_id st.senders) d w
  ]

  unfoldable pub maybe_finalize_event : ℕ → Bus S W → Bus S W
  maybe_finalize_event seq bus = elim (en.store.get seq bus.store) [
    | err e ↦ bus
    | ok none ↦ bus
    | ok (some event) ↦
        let final =
          if any is_dead event.deliveries
          then EventStatus.dead_lettered
          else EventStatus.delivered in
        if any (λ d. not (is_final d)) event.deliveries
        then bus
        else record bus { store = (en.store.update_status seq final bus.store).1 }
  ]

  -- A store operation whose error is only logged, at the time that the store reads.
  unfoldable pub record_retry :
      RetryableDelivery → DeliveryStatus → Option Reason → Option ℕ → Bus S W → Bus S W
  record_retry d status error next_retry bus =
      let (now, w₁) = en.runtime.now bus.world in
      record bus {
        store =
            (en.store.record_delivery now d.seq d.subscriber_id status error next_retry
              bus.store).1;
        world = w₁;
      }

  unfoldable pub dead_letter_delivery : RetryableDelivery → Reason → Bus S W → Bus S W
  unfolding record_retry maybe_finalize_event
  dead_letter_delivery d reason bus =
      maybe_finalize_event d.seq
        (record_retry d DeliveryStatus.dead_lettered (some (dead_letter reason)) none bus)

  -- A retry that failed and may succeed later.
  unfoldable pub retry_later : RetryConfig → RetryableDelivery → Reason → Bus S W → Bus S W
  unfolding dead_letter_delivery record_retry
  retry_later config d message bus =
      let new_attempts = next_u32 d.attempts in
      let (draw, w₁) = en.runtime.random_range bus.world in
      let (now, w₂) = en.runtime.now w₁ in
      let next_retry = next_retry_after draw now new_attempts config in
      let given_up = dead_letter_delivery d (attempts_exhausted config.max_attempts message) bus in
      let scheduled =
        record_retry d DeliveryStatus.failed (some message) (some next_retry)
          (record bus { world = w₂ }) in
      if leb config.max_attempts new_attempts then given_up else scheduled

  unfoldable pub after_retry :
      RetryConfig → RetryableDelivery → Result RetryOutcome (Unit {0}) → Bus S W → Bus S W
  unfolding retry_later dead_letter_delivery record_retry maybe_finalize_event
  after_retry config d (ok _) bus =
      maybe_finalize_event d.seq (record_retry d DeliveryStatus.delivered none none bus)
  after_retry config d (err (transient message)) bus = retry_later config d message bus
  after_retry config d (err (permanent message)) bus = dead_letter_delivery d message bus

  unfoldable pub retry_delivery :
      RetryConfig → DispatchState V Sender Interceptor → RetryableDelivery → Bus S W → Bus S W
  unfolding retry_to_subscriber after_retry dead_letter_delivery
  retry_delivery config st d bus =
      let (result, w) = retry_to_subscriber st d bus.world in
      let exceeded = dead_letter_delivery d attempts_exceeded bus in
      let retried = after_retry config d result (record bus { world = w }) in
      if leb config.max_attempts d.attempts then exceeded else retried

  -- The loop of `poll_and_retry`; `states i` is the state behind the lock at the `i`-th retry.
  unfoldable pub retry_all :
      RetryConfig
      → (ℕ → DispatchState V Sender Interceptor)
      → ℕ
      → List RetryableDelivery
      → Bus S W
      → Bus S W
  unfolding retry_delivery
  retry_all config states i [] bus = bus
  retry_all config states i (d ∷ ds) bus =
      retry_all config states (suc i) ds (retry_delivery config (states i) d bus)

  unfoldable pub poll_and_retry :
      RetryConfig
      → ℕ
      → (ℕ → DispatchState V Sender Interceptor)
      → Bus S W
      → Result EventBusError (Unit {0}) × Bus S W
  unfolding retry_all
  poll_and_retry config query_limit states bus =
      let (now, w) = en.runtime.now bus.world in
      elim (en.store.query_retryable now config.max_attempts query_limit bus.store) [
        | err e ↦ (err (storage e), record bus { world = w })
        | ok retryables ↦ (ok tt, retry_all config states 0 retryables (record bus { world = w }))
      ]
