-- ===== src/Dispatch/Published.antt =====
-- `publish_event` of dispatch/engine.rs and the store at its end.
use seidrum.Base.{
  ℕ, ◌==◌, Text, starts_with, retain, false, Option, none, some, List, ◌≡◌, refl, ◌∙◌, ap,
}
use seidrum.Error.{ok}
use seidrum.Store.{EventStatus, dispatching, DeliveryRecord, StoredEvent, next_u64}
use seidrum.Store.Memory.{stamped}
use seidrum.Store.Interface.{StoreLaws}
use seidrum.Index.{lookup}
use seidrum.Dispatch.Record.{Engine, Bus, set_status}
use seidrum.Dispatch.Publish.{
  Reads, wants, dispatch_persisted_event, new_event, job_of, reply_prefix, persist,
  validate_publish, publish_event,
}
use seidrum.Dispatch.Effects.{self_eq}
use seidrum.Dispatch.Delivery.{Verdict}
use seidrum.Dispatch.Dispatched.{dispatch-Ended}

module _ {V S W Sender Interceptor Channel : Type 0} (en : Engine V S W Sender Interceptor Channel)
    (IsValid HasRoom : S → Type 0) (view : S → ℕ → Option StoredEvent)
    (laws : StoreLaws en.store IsValid HasRoom view) where
  -- The bus with the event stored.
  abbrev pub appended : Text → Text → Option Text → Bus S W → Bus S W
  appended subject payload reply_subject bus = record bus {
    store =
        (en.store.append (en.runtime.now bus.world).0 (new_event en subject payload reply_subject)
          bus.store).1;
    events_published = next_u64 bus.events_published;
    world = (en.runtime.now bus.world).1;
  }

  persist-ok :
      (subject payload : Text) (reply_subject : Option Text) (bus : Bus S W) {q : ℕ}
      → (en.store.append
          (en.runtime.now bus.world).0
          (new_event en subject payload reply_subject)
          bus.store).0
        ≡ ok q
      → persist en subject payload reply_subject bus
        ≡ (ok q, appended subject payload reply_subject bus)
  unfolding persist
  persist-ok subject payload reply_subject bus h = rw (h, persist)

  publish_event_persisted :
      (reads : Reads V Sender Interceptor) (intercepting : Option Text) (subject payload : Text)
      (reply_subject : Option Text) (bus : Bus S W) {q : ℕ}
      → validate_publish en intercepting subject payload ≡ ok tt
      → starts_with (reply_prefix en) subject ≡ false
      → (en.store.append
          (en.runtime.now bus.world).0
          (new_event en subject payload reply_subject)
          bus.store).0
        ≡ ok q
      → publish_event en reads intercepting subject payload reply_subject bus ≡ (
        ok q,
        dispatch_persisted_event en reads
            (job_of en q subject reply_subject false)
            payload
            (appended subject payload reply_subject bus),
      )
  unfolding publish_event
  publish_event_persisted reads intercepting subject payload reply_subject bus passed no_reply
        given =
      let e = persist-ok subject payload reply_subject bus given in
      rw (passed, publish_event) (rw no_reply (rw (ap (λ r. r.0) e) (rw (ap (λ r. r.1) e))))

  -- A publish of a subject that is not `_reply.`-prefixed and passes the checks, over a valid
  -- store with room for a sequence number, returns a number that was free; at the end the number
  -- holds the stamped event with the records and the final status of the dispatch, other numbers
  -- are unchanged and the store is valid; either an interceptor dropped the event and it is
  -- `Delivered`, or every subscription that the subject and the filters reach has a record and the
  -- event is `Delivered` with only delivered records, or `PartiallyDelivered`.
  pub publish_event-recorded :
      (reads : Reads V Sender Interceptor) (intercepting : Option Text) (subject payload : Text)
      (reply_subject : Option Text) (bus : Bus S W)
      → validate_publish en intercepting subject payload ≡ ok tt
      → starts_with (reply_prefix en) subject ≡ false
      → IsValid bus.store
      → HasRoom bus.store
      → let (result, bus') =
          publish_event en reads intercepting subject payload reply_subject bus in
        (q : ℕ) × (status : EventStatus) × (ds : List DeliveryRecord) × (result ≡ ok q)
        × (view bus.store q ≡ none)
        × (view bus'.store q
            ≡ some
                (record (stamped q
                  (en.runtime.now bus.world).0
                  (new_event en subject payload reply_subject)) {
                    status = status;
                    deliveries = ds;
                  }))
        × ((j : ℕ) → (q == j) ≡ false → view bus'.store j ≡ view bus.store j)
        × IsValid bus'.store
        × Verdict en reads
            (job_of en q subject reply_subject false)
            payload
            (retain (wants en payload) (lookup subject reads.resolve.index))
            (set_status en q dispatching false (appended subject payload reply_subject bus))
            status
            ds
  publish_event-recorded reads intercepting subject payload reply_subject bus passed no_reply v
        room =
      let (now, w) = en.runtime.now bus.world in
      let event = new_event en subject payload reply_subject in
      let (q, given, free, views, valid) = laws.append_view now event bus.store v room in
      let job = job_of en q subject reply_subject false in
      let after = appended subject payload reply_subject bus in
      let ended =
        dispatch-Ended en IsValid HasRoom view laws reads after.store job payload
          (stamped q now event) refl after
          (record {
            held = views q ∙ rw (self_eq q) (unfold new_event in refl);
            others = λ j ne. refl;
            valid = valid;
          }) in
      rw
        (publish_event_persisted reads intercepting subject payload reply_subject bus passed
          no_reply given)
        (
          q,
          ended.status,
          ended.records,
          refl,
          free,
          ended.tracked.held,
          (λ j ne. ended.tracked.others j ne ∙ views j ∙ rw ne),
          ended.tracked.valid,
          ended.verdict,
        )
