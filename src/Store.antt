-- ===== src/Store.antt =====
-- What the event store keeps: crates/core/seidrum-eventbus/src/storage/types.rs. Times are Unix
-- milliseconds, an argument wherever the code reads the clock. An error text that the bus formats is
-- named by what it says.
pub mod Interface
pub mod Memory
use seidrum.Channel.{DeliveryError}
use seidrum.Base.{
  ℕ, suc, ◌%◌, ◌^◌, ◌+◌, Text, if◌then◌else◌, ◌==◌, ltb, leb, Bool, true, false, ◌&&◌, Option, none,
  some, List, ◌≡◌, ◌≢◌, arith,
}

abbrev pub u32_mod : ℕ
u32_mod = 2 ^ 32

abbrev pub u64_mod : ℕ
u64_mod = 2 ^ 64

-- Rust's `+ 1` in a release build.
unfoldable pub next_u64 : ℕ → ℕ
next_u64 n = (n + 1) % u64_mod

unfoldable pub next_u32 : ℕ → ℕ
next_u32 n = (n + 1) % u32_mod

pub data EventStatus : Type 0 where
  pending dispatching delivered partially_delivered dead_lettered : EventStatus

abbrev pub as_u8 : EventStatus → ℕ
as_u8 pending = 0
as_u8 dispatching = 1
as_u8 delivered = 2
as_u8 partially_delivered = 3
as_u8 dead_lettered = 4

abbrev pub from_u8 : ℕ → Option EventStatus
from_u8 val =
    if val == 0
    then some pending
    else if val == 1
    then some dispatching
    else if val == 2
    then some delivered
    else if val == 3
    then some partially_delivered
    else if val == 4
    then some dead_lettered
    else none

pub data DeliveryStatus : Type 0 where
  pending delivered failed dead_lettered : DeliveryStatus

-- What the text of a delivery's error says. `said` is a text that a
-- channel reports, `displayed` an error of a channel as it prints, and `sender_full` and
-- `sender_closed` are those of tokio's `TrySendError`.
pub data Reason : Type 0 where
  said : Text → Reason
  displayed : DeliveryError → Reason
  sync_channel_failed : Reason → Reason
  sender_full sender_closed : Reason
  channel_full channel_closed no_sender removed_during_dispatch : Reason
  interceptor_panicked interceptor_cancelled : Reason
  interceptor_timed_out : ℕ → Reason
  subscriber_gone not_retryable channel_unregistered sender_unregistered : Reason
  attempts_exceeded : Reason
  attempts_exhausted : ℕ → Reason → Reason
  dead_letter : Reason → Reason

pub record DeliveryRecord : Type 0 where
  pub subscriber_id : Text
  pub status : DeliveryStatus
  pub attempts : ℕ
  pub last_attempt : Option ℕ
  pub next_retry : Option ℕ
  pub error : Option Reason

pub record StoredEvent : Type 0 where
  pub seq : ℕ
  pub subject : Text
  pub payload : Text
  pub stored_at : ℕ
  pub status : EventStatus
  pub deliveries : List DeliveryRecord
  pub reply_subject : Option Text

pub record RetryableDelivery : Type 0 where
  pub seq : ℕ
  pub subject : Text
  pub subscriber_id : Text
  pub attempts : ℕ
  pub payload : Text
  pub reply_subject : Option Text
  pub next_retry : Option ℕ

pub data PersistedSubscriptionKind : Type 0 where
  async_webhook sync_interceptor : PersistedSubscriptionKind

pub record PersistedSubscription : Type 0 where
  pub persisted_id : Text
  pub pattern : Text
  pub url : Text
  pub headers : List (Text × Text)
  pub priority : ℕ
  pub created_at : ℕ
  pub kind : PersistedSubscriptionKind
  pub timeout_ms : Option ℕ

abbrev pub new_async_webhook :
    Text → Text → Text → List (Text × Text) → ℕ → ℕ → PersistedSubscription
new_async_webhook persisted_id pattern url headers priority created_at = record {
  persisted_id = persisted_id;
  pattern = pattern;
  url = url;
  headers = headers;
  priority = priority;
  created_at = created_at;
  kind = async_webhook;
  timeout_ms = none;
}

abbrev pub new_sync_interceptor :
    Text → Text → Text → List (Text × Text) → ℕ → ℕ → Option ℕ → PersistedSubscription
new_sync_interceptor persisted_id pattern url headers priority created_at timeout_ms = record {
  persisted_id = persisted_id;
  pattern = pattern;
  url = url;
  headers = headers;
  priority = priority;
  created_at = created_at;
  kind = sync_interceptor;
  timeout_ms = timeout_ms;
}

abbrev pub delivery_eq : DeliveryStatus → DeliveryStatus → Bool
delivery_eq pending pending = true
delivery_eq delivered delivered = true
delivery_eq failed failed = true
delivery_eq dead_lettered dead_lettered = true
delivery_eq _ _ = false

abbrev pub status_eq : EventStatus → EventStatus → Bool
status_eq pending pending = true
status_eq dispatching dispatching = true
status_eq delivered delivered = true
status_eq partially_delivered partially_delivered = true
status_eq dead_lettered dead_lettered = true
status_eq _ _ = false

-- `next_retry.is_none_or(|t| t <= now_ms)`.
abbrev pub due : Option ℕ → ℕ → Bool
due none now = true
due (some t) now = leb t now

unfoldable pub is_retryable : DeliveryRecord → ℕ → ℕ → Bool
is_retryable d max_attempts now =
    delivery_eq d.status failed && (ltb d.attempts max_attempts && due d.next_retry now)

pub status_ne : (a b : EventStatus) → a ≢ b → status_eq a b ≡ false
status_ne a b h = ground arith
