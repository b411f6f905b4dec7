-- ===== src/Dispatch/Publish.antt =====
-- A dispatch from end to end, `publish_event` and `replay_dead_lettered`. Other tasks may subscribe and
-- unsubscribe while a dispatch runs: the state behind the lock is read three times, and each read is an
-- argument.
use seidrum.Base.{
  ℕ, if◌then◌else◌, Text, codes, starts_with, text_eq, retain, Bool, true, false, Option, none,
  some, List, [], ◌∷◌,
}
use seidrum.Error.{
  Result, ok, err, ◌>>◌, EventBusError, storage, internal, reentrant_publish, event_not_found,
  event_not_dead_lettered,
}
use seidrum.Filter.{matches}
use seidrum.Index.{SubscriptionEntry, SubscriptionMode, sync, async, lookup}
use seidrum.Store.{
  pending, dispatching, delivered, partially_delivered, dead_lettered, StoredEvent, status_eq,
  next_u64,
}
use seidrum.Dispatch.{DispatchState, validate_subject, validate_payload}
use seidrum.Dispatch.Record.{Engine, Bus, set_status}
use seidrum.Dispatch.Chain.{Chain, Job, sync_snapshot, sync_chain, async_snapshot, fan_out}

abbrev pub is_sync : SubscriptionMode → Bool
is_sync sync = true
is_sync async = false

abbrev pub is_async : SubscriptionMode → Bool
is_async sync = false
is_async async = true

-- The state behind the lock at its three reads: for the lookup, and for the two snapshots.
pub record Reads (V Sender Interceptor : Type 0) : Type 0 where
  pub resolve : DispatchState V Sender Interceptor
  pub for_sync : DispatchState V Sender Interceptor
  pub for_async : DispatchState V Sender Interceptor

abbrev pub is_nil : {A : Type 0} → List A → Bool
is_nil [] = true
is_nil (x ∷ xs) = false

module _ {V S W Sender Interceptor Channel : Type 0}
    (en : Engine V S W Sender Interceptor Channel) where
  -- `filter.as_ref().is_none_or(|f| f.matches(&payload))`.
  unfoldable pub wants : Text → SubscriptionEntry V → Bool
  wants payload e = elim e.filter [ none ↦ true | some f ↦ matches en.json f payload ]

  unfoldable pub start : Text → Bus S W → Chain S W
  start payload bus = record { payload = payload; any_failed = false; dropped = false; bus = bus }

  -- Stages 4 to 6, for the subscriptions that the filters leave.
  unfoldable pub deliver_all :
      Reads V Sender Interceptor → Job → Text → List (SubscriptionEntry V) → Bus S W → Bus S W
  unfolding start sync_snapshot sync_chain async_snapshot fan_out set_status
  deliver_all reads job payload entries bus =
      let syncs = sync_snapshot reads.for_sync (retain (λ e. is_sync e.mode) entries) in
      let asyncs = async_snapshot reads.for_async (retain (λ e. is_async e.mode) entries) in
      let c = sync_chain en job syncs (start payload bus) in
      let dropped = set_status en job.seq delivered job.is_reply c.bus in
      let d = fan_out en job asyncs c in
      let final = if d.any_failed then partially_delivered else delivered in
      let finalized = set_status en job.seq final job.is_reply d.bus in
      if c.dropped then dropped else finalized

  -- The result is always the sequence number.
  unfoldable pub dispatch_persisted_event :
      Reads V Sender Interceptor → Job → Text → Bus S W → Bus S W
  dispatch_persisted_event reads job payload bus =
      let found = lookup job.subject reads.resolve.index in
      let unmatched = set_status en job.seq delivered job.is_reply bus in
      let dispatched = set_status en job.seq dispatching job.is_reply bus in
      let entries = retain (wants payload) found in
      let filtered = set_status en job.seq delivered job.is_reply dispatched in
      let delivered_bus = deliver_all reads job payload entries dispatched in
      if is_nil found then unmatched else if is_nil entries then filtered else delivered_bus

  unfoldable pub new_event : Text → Text → Option Text → StoredEvent
  new_event subject payload reply_subject = record {
    seq = 0;
    subject = subject;
    payload = payload;
    stored_at = 0;
    status = pending;
    deliveries = [];
    reply_subject = reply_subject;
  }

  abbrev pub job_of : ℕ → Text → Option Text → Bool → Job
  job_of seq subject reply_subject is_reply = record {
    seq = seq;
    subject = subject;
    reply_subject = reply_subject;
    is_reply = is_reply;
  }

  unfoldable pub reply_prefix : Text
  reply_prefix = codes "_reply."

  -- `INTERCEPTING_SUBJECT` of the task: the subject whose interceptor makes this call, if one does.
  unfoldable pub check_reentry : Option Text → Text → Result EventBusError (Unit {0})
  check_reentry none subject = ok tt
  check_reentry (some intercepting) subject =
      if text_eq intercepting subject then err (internal reentrant_publish) else ok tt

  -- Stage 1, for an event that is no reply.
  unfoldable pub persist : Text → Text → Option Text → Bus S W → Result EventBusError ℕ × Bus S W
  persist subject payload reply_subject bus =
      let (now, w) = en.runtime.now bus.world in
      let (result, s) = en.store.append now (new_event subject payload reply_subject) bus.store in
      elim result [
        | err e ↦ (err (storage e), record bus { store = s; world = w })
        | ok seq ↦ (
          ok seq,
          record bus { store = s; events_published = next_u64 bus.events_published; world = w },
        )
      ]

  unfoldable pub validate_publish : Option Text → Text → Text → Result EventBusError (Unit {0})
  unfolding validate_subject validate_payload check_reentry
  validate_publish intercepting subject payload = do
    validate_subject subject
    validate_payload payload
    check_reentry intercepting subject

  unfoldable pub publish_event :
      Reads V Sender Interceptor
      → Option Text
      → Text
      → Text
      → Option Text
      → Bus S W
      → Result EventBusError ℕ × Bus S W
  publish_event reads intercepting subject payload reply_subject bus =
      elim (validate_publish intercepting subject payload) [
        | err e ↦ (err e, bus)
        | ok _ ↦
            if starts_with reply_prefix subject
            then (
              ok 0,
              dispatch_persisted_event reads (job_of 0 subject reply_subject true) payload bus,
            )
            else (let (result, bus') = persist subject payload reply_subject bus in
                elim result [
                  | err e ↦ (err e, bus')
                  | ok seq ↦ (
                    ok seq,
                    dispatch_persisted_event reads (job_of seq subject reply_subject false) payload
                        bus',
                  )
                ])
      ]

  unfoldable pub replay_dead_lettered :
      Reads V Sender Interceptor → ℕ → Bus S W → Result EventBusError ℕ × Bus S W
  replay_dead_lettered reads seq bus = elim (en.store.get seq bus.store) [
    | err e ↦ (err (storage e), bus)
    | ok none ↦ (err (internal (event_not_found seq)), bus)
    | ok (some event) ↦
        if status_eq event.status dead_lettered
        then (let (result, s) = en.store.requeue_dead_lettered seq bus.store in
            elim result [
              | err e ↦ (err (storage e), record bus { store = s })
              | ok _ ↦ (
                ok seq,
                dispatch_persisted_event reads (job_of seq event.subject event.reply_subject false)
                    event.payload
                    (record bus { store = s; events_published = next_u64 bus.events_published }),
              )
            ])
        else (err (internal (event_not_dead_lettered seq)), bus)
  ]
