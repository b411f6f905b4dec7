-- ===== src/Agent/Outbox.antt =====
-- The outbound deliveries of crates/core/seidrum-agent-runtime/src/lib.rs: the record of one, the retry
-- policy, and the executor that hands one to a sink.
pub mod Retries
use seidrum.Base.{
  ℕ, zero, suc, ◌-◌, min, if◌then◌else◌, leb, Text, text_eq, codes, Bool, true, false, Option, none,
  some, List, [], ◌∷◌, ◌++◌, retain,
}
use seidrum.Error.{Result, ok, err}
use seidrum.Store.{next_u32}
use seidrum.Agent.{RuntimeError, ChannelContinuationIdentity, RuntimeEvent, outbound_response}
use seidrum.Agent.Action.{Action, return, fail, reading, calling, ◌>>=◌, ◌>>◌}

pub data OutboundDeliveryStatus : Type 0 where
  queued sent failed retry_scheduled cancelled : OutboundDeliveryStatus

abbrev pub status_eq : OutboundDeliveryStatus → OutboundDeliveryStatus → Bool
status_eq queued queued = true
status_eq sent sent = true
status_eq failed failed = true
status_eq retry_scheduled retry_scheduled = true
status_eq cancelled cancelled = true
status_eq _ _ = false

pub record OutboundDeliveryRecord : Type 0 where
  pub delivery_id : Text
  pub session_id : Text
  pub channel_origin : Option ChannelContinuationIdentity
  pub payload_text : Text
  pub status : OutboundDeliveryStatus
  pub attempt_count : ℕ
  pub max_attempts : ℕ
  pub retry_after : Option Text
  pub last_error : Option Text
  pub linked_runtime_event_id : Option Text
  pub provider_message_id : Option Text

-- `OutboundDeliveryRecord::queued`.
abbrev pub new_delivery :
    Text → Text → Option ChannelContinuationIdentity → Text → Option Text → OutboundDeliveryRecord
new_delivery id session origin text linked = record {
  delivery_id = id;
  session_id = session;
  channel_origin = origin;
  payload_text = text;
  status = queued;
  attempt_count = 0;
  max_attempts = 3;
  retry_after = none;
  last_error = none;
  linked_runtime_event_id = linked;
  provider_message_id = none;
}

abbrev pub with_max_attempts : OutboundDeliveryRecord → ℕ → OutboundDeliveryRecord
with_max_attempts d n = record d { max_attempts = n }

unfoldable pub mark_sent : OutboundDeliveryRecord → Option Text → OutboundDeliveryRecord
mark_sent d message_id = record d {
  status = sent;
  attempt_count = next_u32 d.attempt_count;
  retry_after = none;
  last_error = none;
  provider_message_id = message_id;
}

abbrev pub mark_cancelled : OutboundDeliveryRecord → Text → OutboundDeliveryRecord
mark_cancelled d reason = record d {
  status = cancelled;
  retry_after = none;
  last_error = some reason;
}

pub record OutboundRetryPolicy : Type 0 where
  pub max_attempts : ℕ
  pub backoff_schedule : List Text

-- `schedule.get(i).cloned().or_else(|| schedule.last().cloned())`.
abbrev pub get_or_last : List Text → ℕ → Option Text
get_or_last [] i = none
get_or_last (x ∷ []) i = some x
get_or_last (x ∷ y ∷ xs) zero = some x
get_or_last (x ∷ y ∷ xs) (suc i) = get_or_last (y ∷ xs) i

unfoldable pub record_failure :
    OutboundRetryPolicy → OutboundDeliveryRecord → Text → OutboundDeliveryRecord
record_failure policy d error =
    let attempts = next_u32 d.attempt_count in
    if leb (min d.max_attempts policy.max_attempts) attempts
    then record d {
      status = failed;
      attempt_count = attempts;
      retry_after = none;
      last_error = some error;
    }
    else record d {
      status = retry_scheduled;
      attempt_count = attempts;
      retry_after = get_or_last policy.backoff_schedule (attempts - 1);
      last_error = some error;
    }

pub record OutboundDeliveryStore (W : Type 0) : Type 0 where
  pub put_outbound_delivery : OutboundDeliveryRecord → Action W (Unit {0})
  pub outbound_delivery : Text → W → Result RuntimeError (Option OutboundDeliveryRecord)
  pub list_outbound_deliveries : W → Result RuntimeError (List OutboundDeliveryRecord)

-- `status.is_none_or(|status| record.status == status)`.
abbrev pub has_status : Option OutboundDeliveryStatus → OutboundDeliveryRecord → Bool
has_status none d = true
has_status (some status) d = status_eq d.status status

-- A sink, which hands a message on or says why it cannot.
abbrev pub FakeOutboundDeliverySink : Type 0
FakeOutboundDeliverySink = Result Text Text

module _ {W : Type 0} (store : OutboundDeliveryStore W) where
  unfoldable pub outbound_deliveries_for_session :
      Text → Option OutboundDeliveryStatus → Action W (List OutboundDeliveryRecord)
  outbound_deliveries_for_session session status = do
    ds ← reading store.list_outbound_deliveries
    return (retain (has_status status) (retain (λ d. text_eq d.session_id session) ds))

  unfoldable pub enqueue_outbound_response :
      (W → Text × W)
      → RuntimeEvent
      → Option ChannelContinuationIdentity
      → Action W OutboundDeliveryRecord
  enqueue_outbound_response new_record_id (outbound_response session agent text) origin = do
    id ← calling new_record_id
    let d =
        new_delivery id session origin text
          (some (codes "runtime:" ++ session ++ codes ":" ++ agent))
    store.put_outbound_delivery d
    return d

abbrev pub delivered :
    FakeOutboundDeliverySink → OutboundRetryPolicy → OutboundDeliveryRecord → OutboundDeliveryRecord
delivered (ok message_id) policy d = mark_sent d (some message_id)
delivered (err error) policy d = record_failure policy d error

module _ {W : Type 0} where
  abbrev pub or_missing : Text → Option OutboundDeliveryRecord → Action W OutboundDeliveryRecord
  or_missing id none =
      fail (RuntimeError.store (codes "delivery `" ++ id ++ codes "` is not defined"))
  or_missing id (some d) = return d

  unfoldable pub dispatch_one :
      OutboundDeliveryStore W
      → FakeOutboundDeliverySink
      → OutboundRetryPolicy
      → Text
      → Action W OutboundDeliveryRecord
  dispatch_one store sink policy id = do
    found ← reading (store.outbound_delivery id)
    d ← or_missing id found
    store.put_outbound_delivery (delivered sink policy d)
    return (delivered sink policy d)
