-- ===== src/Dispatch/Effects.antt =====
-- What the loops of `dispatch_persisted_event` in dispatch/engine.rs leave in the store.
use seidrum.Base.{
  ℕ, ◌==◌, Text, true, false, Bool-cases, inl, inr, Option, none, some, List, [], ◌∷◌, map, ◌≡◌,
  refl, arith, sym, ◌∙◌, subst,
}
use seidrum.Store.{EventStatus, DeliveryStatus, delivered, DeliveryRecord, StoredEvent, Reason}
use seidrum.Store.Memory.{record_in}
use seidrum.Store.Memory.Outcomes.{
  AllDelivered, Recorded, AllDelivered-record_in, Recorded-mono, Recorded-self,
}
use seidrum.Store.Interface.{StoreLaws, with_status}
use seidrum.Dispatch.{
  SendOutcome, sent, full, closed, InterceptOutcome, pass, modified, drop, panicked, cancelled,
  timed_out,
}
use seidrum.Dispatch.Record.{Engine, Bus, try_record}
use seidrum.Dispatch.Chain.{
  Chain, Job, SyncEntry, event_of, in_world, succeed, fail, after_intercept, after_sync_send,
  sync_step, sync_chain, after_async_send, async_step, fan_out,
}

-- All of a list of subscribers have a record.
abbrev pub Covered : List DeliveryRecord → List Text → Type 0
Covered ds [] = Unit
Covered ds (id ∷ ids) = Recorded ds id × Covered ds ids

-- Who has been seen after a loop, last first.
abbrev pub push_all : List Text → List Text → List Text
push_all [] seen = seen
push_all (id ∷ ids) seen = push_all ids (id ∷ seen)

abbrev pub sync_ids :
    {Sender Interceptor : Type 0} → List (SyncEntry Sender Interceptor) → List Text
sync_ids = map λ e. e.id

abbrev pub async_ids : {Sender : Type 0} → List (Text × Option Sender) → List Text
async_ids = map λ e. e.0

pub self_eq : (q : ℕ) → (q == q) ≡ true
self_eq q = ground arith

module _ {V S W Sender Interceptor Channel : Type 0} (en : Engine V S W Sender Interceptor Channel)
    (IsValid HasRoom : S → Type 0) (view : S → ℕ → Option StoredEvent)
    (laws : StoreLaws en.store IsValid HasRoom view) where
  -- The store holds the event `e` with these records, and otherwise what `base` holds.
  pub record Tracked (base : S) (q : ℕ) (e : StoredEvent) (ds : List DeliveryRecord) (s : S)
      : Type 0 where
    pub held : view s q ≡ some (record e { deliveries = ds })
    pub others : (j : ℕ) → (q == j) ≡ false → view s j ≡ view base j
    pub valid : IsValid s

  pub Tracked-update_status :
      (base : S) (q : ℕ) (e : StoredEvent) (ds : List DeliveryRecord) (s : S) (status : EventStatus)
      → Tracked base q e ds s
      → Tracked base q (with_status status e) ds (en.store.update_status q status s).1
  Tracked-update_status base q e ds s status t = record {
    held = laws.update_status_view q status s q ∙ ground (arith, self_eq q, t.held);
    others = λ j ne. laws.update_status_view q status s j ∙ rw ne (t.others j ne);
    valid = laws.update_status_valid q status s t.valid;
  }

  pub Tracked-record_delivery :
      (base : S) (q : ℕ) (e : StoredEvent) (ds : List DeliveryRecord) (s : S) (now : ℕ) (id : Text)
      (status : DeliveryStatus) (error : Option Reason) (next_retry : Option ℕ)
      → Tracked base q e ds s
      → Tracked base q e
          (record_in now id status error next_retry ds)
          (en.store.record_delivery now q id status error next_retry s).1
  Tracked-record_delivery base q e ds s now id status error next_retry t = record {
    held =
        laws.record_delivery_view now q id status error next_retry s q
        ∙ ground (arith, self_eq q, t.held);
    others = λ j ne.
        laws.record_delivery_view now q id status error next_retry s j ∙ rw ne (t.others j ne);
    valid = laws.record_delivery_valid now q id status error next_retry s t.valid;
  }

  module _ (base : S) (e : StoredEvent) (job : Job) (persisted : job.is_reply ≡ false) where
    -- The loops' invariant, for the subscribers seen so far.
    pub record Inv (seen : List Text) (c : Chain S W) : Type 0 where
      pub records : List DeliveryRecord
      pub tracked : Tracked base job.seq e records c.bus.store
      pub clean : c.any_failed ≡ false → AllDelivered records
      pub covered : Covered records seen

    Covered-record_in :
        (now : ℕ) (id : Text) (status : DeliveryStatus) (error : Option Reason)
        (next_retry : Option ℕ) (ds : List DeliveryRecord) (seen : List Text)
        → Covered ds seen
        → Covered (record_in now id status error next_retry ds) seen
    Covered-record_in now id status error next_retry ds [] h = tt
    Covered-record_in now id status error next_retry ds (j ∷ seen) h = (
      Recorded-mono now id status error next_retry ds j h.0,
      Covered-record_in now id status error next_retry ds seen h.1,
    )

    -- `try_record` writes one record.
    try_record_store :
        (id : Text) (status : DeliveryStatus) (error : Option Reason) (bus : Bus S W)
        → (now : ℕ) × (next_retry : Option ℕ) × ((try_record en job.seq id status error job.is_reply
              bus).store
            ≡ (en.store.record_delivery now job.seq id status error next_retry bus.store).1)
    unfolding try_record
    try_record_store id status error bus = rw persisted (_, _, refl)

    succeed-Inv :
        (id : Text) (seen : List Text) (c : Chain S W)
        → Inv seen c
        → Inv (id ∷ seen) (succeed en job id c)
    unfolding succeed
    succeed-Inv id seen c i =
        let (now, next, same) = try_record_store id delivered none c.bus in
        record {
          records = record_in now id delivered none next i.records;
          tracked =
              subst (Tracked base job.seq e (record_in now id delivered none next i.records))
                (sym same)
                (Tracked-record_delivery base job.seq e i.records c.bus.store now id delivered none
                  next i.tracked);
          clean = λ h. AllDelivered-record_in now id none next i.records (i.clean h);
          covered = (
            Recorded-self now id delivered none next i.records,
            Covered-record_in now id delivered none next i.records seen i.covered,
          );
        }

    fail-Inv :
        (id : Text) (status : DeliveryStatus) (reason : Reason) (seen : List Text) (c : Chain S W)
        → Inv seen c
        → Inv (id ∷ seen) (fail en job id status reason c)
    unfolding fail
    fail-Inv id status reason seen c i =
        let (now, next, same) = try_record_store id status (some reason) c.bus in
        record {
          records = record_in now id status (some reason) next i.records;
          tracked =
              subst (Tracked base job.seq e (record_in now id status (some reason) next i.records))
                (sym same)
                (Tracked-record_delivery base job.seq e i.records c.bus.store now id status
                  (some reason) next i.tracked);
          clean = λ h. cc;
          covered = (
            Recorded-self now id status (some reason) next i.records,
            Covered-record_in now id status (some reason) next i.records seen i.covered,
          );
        }

    -- A change of the payload, of the world or of the flag `dropped` does not matter to it.
    same_store-Inv :
        (seen : List Text) (c d : Chain S W)
        → d.bus.store ≡ c.bus.store
        → d.any_failed ≡ c.any_failed
        → Inv seen c
        → Inv seen d
    same_store-Inv seen c d same flag i = record {
      records = i.records;
      tracked = rw same i.tracked;
      clean = λ h. i.clean (sym flag ∙ h);
      covered = i.covered;
    }

    after_intercept-Inv :
        (id : Text) (timeout : ℕ) (o : InterceptOutcome) (seen : List Text) (c : Chain S W)
        → Inv seen c
        → Inv (id ∷ seen) (after_intercept en job id timeout o c)
    unfolding after_intercept
    after_intercept-Inv id timeout (pass p) seen c i =
        succeed-Inv id seen _ (same_store-Inv seen c (record c { payload = p }) refl refl i)
    after_intercept-Inv id timeout (modified p) seen c i =
        succeed-Inv id seen _ (same_store-Inv seen c (record c { payload = p }) refl refl i)
    after_intercept-Inv id timeout (drop p) seen c i =
        same_store-Inv (id ∷ seen) (succeed en job id (record c { payload = p })) _ refl refl
          (succeed-Inv id seen _ (same_store-Inv seen c (record c { payload = p }) refl refl i))
    after_intercept-Inv id timeout panicked seen c i = fail-Inv id _ _ seen c i
    after_intercept-Inv id timeout cancelled seen c i = fail-Inv id _ _ seen c i
    after_intercept-Inv id timeout timed_out seen c i = fail-Inv id _ _ seen c i

    after_sync_send-Inv :
        (id : Text) (o : SendOutcome) (seen : List Text) (c : Chain S W)
        → Inv seen c
        → Inv (id ∷ seen) (after_sync_send en job id o c)
    unfolding after_sync_send
    after_sync_send-Inv id sent seen c i = succeed-Inv id seen c i
    after_sync_send-Inv id full seen c i = fail-Inv id _ _ seen c i
    after_sync_send-Inv id closed seen c i = fail-Inv id _ _ seen c i

    after_async_send-Inv :
        (id : Text) (o : SendOutcome) (seen : List Text) (c : Chain S W)
        → Inv seen c
        → Inv (id ∷ seen) (after_async_send en job id o c)
    unfolding after_async_send
    after_async_send-Inv id sent seen c i = succeed-Inv id seen c i
    after_async_send-Inv id full seen c i = fail-Inv id _ _ seen c i
    after_async_send-Inv id closed seen c i = fail-Inv id _ _ seen c i

    -- The entry's parts are variables here, so that each case computes.
    sync_step-Inv :
        (id : Text) (timeout : ℕ) (interceptor : Option Interceptor) (sender : Option Sender)
        (seen : List Text) (c : Chain S W)
        → Inv seen c
        → Inv (id ∷ seen) (
            sync_step en job
              (record { id = id; timeout = timeout; interceptor = interceptor; sender = sender })
              c)
    unfolding sync_step
    sync_step-Inv id timeout (some i) sender seen c inv =
        let r = en.runtime.intercept i job.subject c.payload timeout job.seq c.bus.world in
        after_intercept-Inv id timeout r.0 seen (in_world en job r.1 c)
          (same_store-Inv seen c (in_world en job r.1 c) refl refl inv)
    sync_step-Inv id timeout none (some tx) seen c inv =
        let r = en.runtime.try_send tx (event_of job c.payload) c.bus.world in
        after_sync_send-Inv id r.0 seen (in_world en job r.1 c)
          (same_store-Inv seen c (in_world en job r.1 c) refl refl inv)
    sync_step-Inv id timeout none none seen c inv = fail-Inv id _ _ seen c inv

    async_step-Inv :
        (id : Text) (sender : Option Sender) (seen : List Text) (c : Chain S W)
        → Inv seen c
        → Inv (id ∷ seen) (async_step en job (id, sender) c)
    unfolding async_step
    async_step-Inv id (some tx) seen c inv =
        let r = en.runtime.try_send tx (event_of job c.payload) c.bus.world in
        after_async_send-Inv id r.0 seen (in_world en job r.1 c)
          (same_store-Inv seen c (in_world en job r.1 c) refl refl inv)
    async_step-Inv id none seen c inv = fail-Inv id _ _ seen c inv

    -- The chain comes to every subscriber, unless one drops the event.
    pub sync_chain-Inv :
        (es : List (SyncEntry Sender Interceptor)) (seen : List Text) (c : Chain S W)
        → Inv seen c
        → (all : List Text) × Inv all (sync_chain en job es c)
          × ((sync_chain en job es c).dropped ≡ false → all ≡ push_all (sync_ids es) seen)
    unfolding sync_chain
    sync_chain-Inv [] seen c i = (seen, i, λ _. refl)
    sync_chain-Inv (e ∷ es) seen c i =
        let stepped = sync_step-Inv e.id e.timeout e.interceptor e.sender seen c i in
        elim (Bool-cases (sync_step en job e c).dropped) [
          | inl stop ↦ rw (stop, stop) (e.id ∷ seen, stepped, λ h. cc)
          | inr go ↦ rw go (sync_chain-Inv es (e.id ∷ seen) (sync_step en job e c) stepped)
        ]

    pub fan_out-Inv :
        (es : List (Text × Option Sender)) (seen : List Text) (c : Chain S W)
        → Inv seen c
        → Inv (push_all (async_ids es) seen) (fan_out en job es c)
    unfolding fan_out
    fan_out-Inv [] seen c i = i
    fan_out-Inv ((id, sender) ∷ es) seen c i =
        fan_out-Inv es (id ∷ seen) (async_step en job (id, sender) c)
          (async_step-Inv id sender seen c i)
