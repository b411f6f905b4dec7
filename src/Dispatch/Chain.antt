-- ===== src/Dispatch/Chain.antt =====
-- Stages 4 and 5 of a dispatch: the chain of sync subscribers and the fan-out to the async ones.
use seidrum.Base.{ℕ, if◌then◌else◌, Text, Bool, true, Option, none, some, List, [], ◌∷◌, map}
use seidrum.Store.{
  DeliveryStatus, delivered, failed, dead_lettered, Reason, channel_full, channel_closed,
  sync_channel_failed, sender_full, sender_closed, no_sender, removed_during_dispatch,
  interceptor_panicked, interceptor_cancelled, interceptor_timed_out, dead_letter,
}
use seidrum.Index.{SubscriptionEntry}
use seidrum.Dispatch.{
  DispatchedEvent, DispatchState, SendOutcome, sent, full, closed, InterceptOutcome, pass, modified,
  drop, panicked, cancelled, timed_out, get,
}
use seidrum.Dispatch.Record.{Engine, Bus, try_record}

pub record SyncEntry (Sender Interceptor : Type 0) : Type 0 where
  pub id : Text
  pub timeout : ℕ
  pub interceptor : Option Interceptor
  pub sender : Option Sender

-- The variables of the two loops.
pub record Chain (S W : Type 0) : Type 0 where
  pub payload : Text
  pub any_failed : Bool
  pub dropped : Bool
  pub bus : Bus S W

-- The event under dispatch.
pub record Job : Type 0 where
  pub seq : ℕ
  pub subject : Text
  pub reply_subject : Option Text
  pub is_reply : Bool

abbrev pub event_of : Job → Text → DispatchedEvent
event_of job payload = record {
  payload = payload;
  reply_subject = job.reply_subject;
  subject = job.subject;
  seq = job.seq;
}

module _ {V Sender Interceptor : Type 0} where
  unfoldable pub sync_snapshot :
      DispatchState V Sender Interceptor
      → List (SubscriptionEntry V)
      → List (SyncEntry Sender Interceptor)
  unfolding get
  sync_snapshot st = map (λ e. record {
    id = e.id;
    timeout = e.timeout;
    interceptor = get e.id st.interceptors;
    sender = get e.id st.senders;
  })

  unfoldable pub async_snapshot :
      DispatchState V Sender Interceptor → List (SubscriptionEntry V) → List (Text × Option Sender)
  unfolding get
  async_snapshot st = map (λ e. (e.id, get e.id st.senders))

module _ {V S W Sender Interceptor Channel : Type 0} (en : Engine V S W Sender Interceptor Channel)
    (job : Job) where
  -- A delivery that went well, and one that failed.
  unfoldable pub succeed : Text → Chain S W → Chain S W
  succeed id c = record c { bus = try_record en job.seq id delivered none job.is_reply c.bus }

  unfoldable pub fail : Text → DeliveryStatus → Reason → Chain S W → Chain S W
  fail id status reason c = record c {
    any_failed = true;
    bus = try_record en job.seq id status (some reason) job.is_reply c.bus;
  }

  abbrev pub in_world : W → Chain S W → Chain S W
  in_world w c = record c { bus = record c.bus { world = w } }

  unfoldable pub after_intercept : Text → ℕ → InterceptOutcome → Chain S W → Chain S W
  unfolding succeed fail
  after_intercept id timeout (pass payload) c = succeed id (record c { payload = payload })
  after_intercept id timeout (modified payload) c = succeed id (record c { payload = payload })
  after_intercept id timeout (drop payload) c =
      record (succeed id (record c { payload = payload })) { dropped = true }
  after_intercept id timeout panicked c = fail id dead_lettered (dead_letter interceptor_panicked) c
  after_intercept id timeout cancelled c =
      fail id dead_lettered (dead_letter interceptor_cancelled) c
  after_intercept id timeout timed_out c =
      fail id dead_lettered (dead_letter (interceptor_timed_out timeout)) c

  unfoldable pub after_sync_send : Text → SendOutcome → Chain S W → Chain S W
  unfolding succeed fail
  after_sync_send id sent c = succeed id c
  after_sync_send id full c = fail id failed (sync_channel_failed sender_full) c
  after_sync_send id closed c = fail id failed (sync_channel_failed sender_closed) c

  unfoldable pub sync_step : SyncEntry Sender Interceptor → Chain S W → Chain S W
  unfolding after_intercept after_sync_send
  sync_step e c = elim e.interceptor [
    | some i ↦
        let (outcome, w) =
          en.runtime.intercept i job.subject c.payload e.timeout job.seq c.bus.world in
        after_intercept e.id e.timeout outcome (in_world w c)
    | none ↦ elim e.sender [
      | some tx ↦
          let (outcome, w) = en.runtime.try_send tx (event_of job c.payload) c.bus.world in
          after_sync_send e.id outcome (in_world w c)
      | none ↦ fail e.id failed removed_during_dispatch c
    ]
  ]

  -- The loop ends where an interceptor drops the event.
  unfoldable pub sync_chain : List (SyncEntry Sender Interceptor) → Chain S W → Chain S W
  unfolding sync_step
  sync_chain [] c = c
  sync_chain (e ∷ es) c =
      let c' = sync_step e c in let rest = sync_chain es c' in if c'.dropped then c' else rest

  unfoldable pub after_async_send : Text → SendOutcome → Chain S W → Chain S W
  unfolding succeed fail
  after_async_send id sent c = succeed id c
  after_async_send id full c = fail id failed channel_full c
  after_async_send id closed c = fail id failed channel_closed c

  unfoldable pub async_step : Text × Option Sender → Chain S W → Chain S W
  unfolding after_async_send
  async_step (id, sender) c = elim sender [
    | some tx ↦
        let (outcome, w) = en.runtime.try_send tx (event_of job c.payload) c.bus.world in
        after_async_send id outcome (in_world w c)
    | none ↦ fail id failed no_sender c
  ]

  unfoldable pub fan_out : List (Text × Option Sender) → Chain S W → Chain S W
  unfolding async_step
  fan_out [] c = c
  fan_out (e ∷ es) c = fan_out es (async_step e c)
