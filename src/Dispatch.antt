-- ===== src/Dispatch.antt =====
-- The dispatch engine: crates/core/seidrum-eventbus/src/dispatch/engine.rs. What the engine keeps under
-- its lock, what it asks of the world outside, and the operations on subscriptions.
pub mod Record
pub mod Live
pub mod Chain
pub mod Publish
pub mod Effects
pub mod Delivery
pub mod Dispatched
pub mod Published
pub mod Api
pub mod Replay
pub mod Retry
pub mod Finalize
pub mod Gone
pub mod Poll
use seidrum.Base.{
  ℕ, ◌+◌, ◌*◌, ltb, leb, if◌then◌else◌, Text, codes, text_eq, length, retain, any, find, on_some,
  map, Bool, true, false, not, ◌==◌, Option, none, some, List, [], ◌∷◌, ◌++◌,
}
use seidrum.Error.{
  Result, ok, err, ◌>>=◌, ◌>>◌, EventBusError, invalid_subject, payload_too_large, internal,
  empty_subject, too_long, null_byte, too_many_interceptors,
}
use seidrum.Filter.{EventFilter}
use seidrum.Channel.{ChannelConfig, in_process, DeliveryError}
use seidrum.Index.{SubjectIndex, SubscriptionEntry, SubscriptionMode, sync}
use seidrum.Index
use seidrum.Backoff.{RetryConfig}

pub record DispatchedEvent : Type 0 where
  pub payload : Text
  pub reply_subject : Option Text
  pub subject : Text
  pub seq : ℕ

-- What `try_send` reports.
pub data SendOutcome : Type 0 where
  sent full closed : SendOutcome

-- How a spawned interceptor ends within its timeout, with the payload that it leaves.
pub data InterceptOutcome : Type 0 where
  pass modified drop : Text → InterceptOutcome
  panicked cancelled timed_out : InterceptOutcome

-- The world outside: the clock, random numbers, tokio's channels, the interceptors that users register
-- and the channels that deliver over the network. `W` is its state.
pub record Runtime (V W Sender Interceptor Channel : Type 0) : Type 0 where
  pub now : W → ℕ × W
  pub random_range : W → (ℕ → ℕ) × W
  pub try_send : Sender → DispatchedEvent → W → SendOutcome × W
  -- The interceptor, the subject, the payload, the timeout and the sequence number.
  pub intercept : Interceptor → Text → Text → ℕ → ℕ → W → InterceptOutcome × W
  pub new_id : W → Text × W
  pub new_channel : ℕ → W → Sender × W
  pub deliver_webhook : Text → Text → ChannelConfig V → W → Result DeliveryError (Unit {0}) × W
  pub deliver : Channel → Text → Text → ChannelConfig V → W → Result DeliveryError (Unit {0}) × W

-- A `HashMap` with string keys.
module _ {A : Type 0} where
  unfoldable pub get : Text → List (Text × A) → Option A
  get k [] = none
  get k ((j, v) ∷ m) = if text_eq j k then some v else get k m

  unfoldable pub insert : Text → A → List (Text × A) → List (Text × A)
  insert k v [] = (k, v) ∷ []
  insert k v ((j, w) ∷ m) = if text_eq j k then (k, v) ∷ m else (j, w) ∷ insert k v m

  unfoldable pub remove : Text → List (Text × A) → List (Text × A)
  remove k [] = []
  remove k ((j, w) ∷ m) = let rest = remove k m in if text_eq j k then rest else (j, w) ∷ rest

  abbrev pub contains_key : Text → List (Text × A) → Bool
  contains_key k m = elim (get k m) [ none ↦ false | some _ ↦ true ]

pub record DispatchState (V Sender Interceptor : Type 0) : Type 0 where
  pub index : SubjectIndex V
  pub senders : List (Text × Sender)
  pub interceptors : List (Text × Interceptor)

abbrev pub max_subject_length : ℕ
max_subject_length = 512

abbrev pub max_payload_size : ℕ
max_payload_size = 512 * 1024 * 1024

abbrev pub default_channel_capacity : ℕ
default_channel_capacity = 8192

-- Milliseconds.
abbrev pub default_interceptor_timeout : ℕ
default_interceptor_timeout = 5000

abbrev pub max_interceptors_per_subject : ℕ
max_interceptors_per_subject = 100

unfoldable pub validate_subject : Text → Result EventBusError (Unit {0})
validate_subject subject =
    if length subject == 0
    then err (invalid_subject empty_subject)
    else if ltb max_subject_length (length subject)
    then err (invalid_subject too_long)
    else if any (λ c. c == 0) subject
    then err (invalid_subject null_byte)
    else ok tt

unfoldable pub validate_payload : Text → Result EventBusError (Unit {0})
validate_payload payload =
    if ltb max_payload_size (length payload) then err payload_too_large else ok tt

pub record SubscriptionInfo : Type 0 where
  pub id : Text
  pub pattern : Text
  pub priority : ℕ
  pub mode : SubscriptionMode

module _ {V W Sender Interceptor Channel : Type 0}
    (rt : Runtime V W Sender Interceptor Channel) where
  abbrev pub State : Type 0
  State = DispatchState V Sender Interceptor

  -- The id is drawn and the channel made before the index checks the pattern, as in the source.
  unfoldable pub subscribe :
      Text
      → ℕ
      → SubscriptionMode
      → ChannelConfig V
      → ℕ
      → Option (EventFilter V)
      → State
      → W
      → Result EventBusError (Text × Sender × State) × W
  unfolding validate_subject insert
  subscribe pattern priority mode channel timeout filter st w =
      let (id, w₁) = rt.new_id w in
      let (tx, w₂) = rt.new_channel default_channel_capacity w₁ in
      let entry : SubscriptionEntry V = record {
        id = id;
        subject_pattern = pattern;
        priority = priority;
        mode = mode;
        channel = channel;
        timeout = timeout;
        filter = filter;
      } in
      elim (validate_subject pattern) [
        | err e ↦ (err e, w)
        | ok _ ↦ elim (Index.subscribe entry st.index) [
          | err e ↦ (err e, w₂)
          | ok index ↦
              (ok (id, tx, record st { index = index; senders = insert id tx st.senders }), w₂)
        ]
      ]

  abbrev pub or_default : Option ℕ → ℕ → ℕ
  or_default none d = d
  or_default (some n) d = n

  -- The interceptors that are registered for exactly this pattern.
  unfoldable pub existing_for_pattern : Text → State → ℕ
  unfolding get
  existing_for_pattern pattern st =
      length (retain (λ e. contains_key e.id st.interceptors) (Index.list (some pattern) st.index))

  unfoldable pub intercept :
      Text → ℕ → Interceptor → Option ℕ → State → W → Result EventBusError (Text × State) × W
  unfolding validate_subject insert existing_for_pattern
  intercept pattern priority interceptor timeout st w =
      let (id, w₁) = rt.new_id w in
      let entry : SubscriptionEntry V = record {
        id = id;
        subject_pattern = pattern;
        priority = priority;
        mode = sync;
        channel = in_process;
        timeout = or_default timeout default_interceptor_timeout;
        filter = none;
      } in
      elim (validate_subject pattern) [
        | err e ↦ (err e, w)
        | ok _ ↦
            if leb max_interceptors_per_subject (existing_for_pattern pattern st)
            then (err (internal too_many_interceptors), w₁)
            else elim (Index.subscribe entry st.index) [
              | err e ↦ (err e, w₁)
              | ok index ↦ (
                ok (
                  id,
                  record st { index = index; interceptors = insert id interceptor st.interceptors },
                ),
                w₁,
              )
            ]
      ]

module _ {V Sender Interceptor : Type 0} where
  unfoldable pub unsubscribe :
      Text → DispatchState V Sender Interceptor → DispatchState V Sender Interceptor
  unfolding remove
  unsubscribe id st = record {
    index = Index.unsubscribe id st.index;
    senders = remove id st.senders;
    interceptors = remove id st.interceptors;
  }

  unfoldable pub list_subscriptions :
      Option Text → DispatchState V Sender Interceptor → List SubscriptionInfo
  list_subscriptions filter st =
      map
        (λ e. record {
          id = e.id;
          pattern = e.subject_pattern;
          priority = e.priority;
          mode = e.mode;
        })
        (Index.list filter st.index)
