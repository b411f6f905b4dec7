-- ===== src/Dispatch/Replay.antt =====
-- `replay_dead_lettered` of dispatch/engine.rs and the store at its end.
use seidrum.Base.{
  ℕ, ◌==◌, false, Option, none, some, List, ◌≡◌, ◌≢◌, refl, ◌∙◌, retain, Option-cases, inl, inr,
}
use seidrum.Error.{ok, err, internal, event_not_found, event_not_dead_lettered}
use seidrum.Store.{EventStatus, DeliveryRecord, StoredEvent, dispatching, next_u64, status_ne}
use seidrum.Store.Memory.{requeued}
use seidrum.Store.Interface.{StoreLaws}
use seidrum.Index.{lookup}
use seidrum.Dispatch.Record.{Engine, Bus, set_status}
use seidrum.Dispatch.Publish.{Reads, wants, dispatch_persisted_event, job_of, replay_dead_lettered}
use seidrum.Dispatch.Effects.{self_eq}
use seidrum.Dispatch.Delivery.{Verdict, Ended}
use seidrum.Dispatch.Dispatched.{dispatch-Ended}

module _ {V S W Sender Interceptor Channel : Type 0} (en : Engine V S W Sender Interceptor Channel)
    (IsValid HasRoom : S → Type 0) (view : S → ℕ → Option StoredEvent)
    (laws : StoreLaws en.store IsValid HasRoom view) where
  -- The bus with the event made pending.
  abbrev pub requeued_bus : ℕ → Bus S W → Bus S W
  requeued_bus q bus = record bus {
    store = (en.store.requeue_dead_lettered q bus.store).1;
    events_published = next_u64 bus.events_published;
  }

  replay_dispatches :
      (reads : Reads V Sender Interceptor) (q : ℕ) (e : StoredEvent) (bus : Bus S W)
      → view bus.store q ≡ some e
      → e.status ≡ EventStatus.dead_lettered
      → replay_dead_lettered en reads q bus ≡ (
        ok q,
        dispatch_persisted_event en reads
            (job_of en q e.subject e.reply_subject false)
            e.payload
            (requeued_bus q bus),
      )
  unfolding replay_dead_lettered
  replay_dispatches reads q e bus held dead =
      rw (laws.get_view q bus.store, held, replay_dead_lettered)
        (rw dead (rw (laws.requeue_view q e bus.store held dead).0))

  -- The replay of a dead-lettered event of a valid store returns its number and dispatches it
  -- again: at the end the number holds the event with the records and the final status of the new
  -- dispatch, other numbers are unchanged and the store is valid; either an interceptor dropped
  -- the event and it is `Delivered`, or every subscription that the subject and the filters reach
  -- has a record and the event is `Delivered` with only delivered records, or
  -- `PartiallyDelivered`.
  pub replay_dead_lettered-recorded :
      (reads : Reads V Sender Interceptor) (q : ℕ) (e : StoredEvent) (bus : Bus S W)
      → IsValid bus.store
      → view bus.store q ≡ some e
      → e.status ≡ EventStatus.dead_lettered
      → let (result, bus') = replay_dead_lettered en reads q bus in
        (status : EventStatus) × (ds : List DeliveryRecord) × (result ≡ ok q)
        × (view bus'.store q ≡ some (record e { status = status; deliveries = ds }))
        × ((j : ℕ) → (q == j) ≡ false → view bus'.store j ≡ view bus.store j)
        × IsValid bus'.store
        × Verdict en reads
            (job_of en q e.subject e.reply_subject false)
            e.payload
            (retain (wants en e.payload) (lookup e.subject reads.resolve.index))
            (set_status en q dispatching false (requeued_bus q bus))
            status
            ds
  replay_dead_lettered-recorded reads q e bus valid held dead =
      let after = requeued_bus q bus in
      let (given, views) = laws.requeue_view q e bus.store held dead in
      let job = job_of en q e.subject e.reply_subject false in
      let ended : Ended en IsValid HasRoom view laws reads after.store job e.payload (requeued e) _
          _ _ =
        dispatch-Ended en IsValid HasRoom view laws reads after.store job e.payload (requeued e)
          refl after
          (record {
            held = views q ∙ rw (self_eq q);
            others = λ j ne. refl;
            valid = laws.requeue_valid q bus.store valid;
          }) in
      rw (replay_dispatches reads q e bus held dead) (
        ended.status,
        ended.records,
        refl,
        ended.tracked.held,
        (λ j ne. ended.tracked.others j ne ∙ views j ∙ rw ne),
        ended.tracked.valid,
        ended.verdict,
      )

  -- A replay of a number that holds no event, or one that is not dead-lettered, says which, and
  -- changes nothing.
  pub replay_dead_lettered-refused :
      (reads : Reads V Sender Interceptor) (q : ℕ) (bus : Bus S W)
      → ((e : StoredEvent) → view bus.store q ≡ some e → e.status ≢ EventStatus.dead_lettered)
      → replay_dead_lettered en reads q bus ≡ (
        elim (view bus.store q) [
          | none ↦ err (internal (event_not_found q))
          | some _ ↦ err (internal (event_not_dead_lettered q))
        ],
        bus,
      )
  unfolding replay_dead_lettered
  replay_dead_lettered-refused reads q bus other = elim (Option-cases (view bus.store q)) [
    | inl missing ↦ rw (laws.get_view q bus.store, missing, replay_dead_lettered)
    | inr (e, found) ↦
        rw (laws.get_view q bus.store, found, replay_dead_lettered)
          (rw (status_ne e.status EventStatus.dead_lettered (other e found)))
  ]
