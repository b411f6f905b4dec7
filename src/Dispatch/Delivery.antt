-- ===== src/Dispatch/Delivery.antt =====
-- The deliveries of `dispatch_persisted_event` of dispatch/engine.rs and the store after them.
use seidrum.Base.{
  ℕ, if◌then◌else◌, Text, retain, map, true, false, Bool-cases, inl, inr, ◌⊎◌, Option, List, [],
  ◌∷◌, ◌≡◌, refl, arith, ap, subst,
}
use seidrum.Store.{EventStatus, delivered, partially_delivered, DeliveryRecord, StoredEvent}
use seidrum.Store.Memory.Outcomes.{AllDelivered}
use seidrum.Store.Interface.{StoreLaws, with_status}
use seidrum.Index.{SubscriptionEntry}
use seidrum.Dispatch.{DispatchState}
use seidrum.Dispatch.Record.{Engine, Bus, set_status}
use seidrum.Dispatch.Chain.{Chain, Job, sync_snapshot, sync_chain, async_snapshot, fan_out}
use seidrum.Dispatch.Publish.{Reads, is_sync, is_async, start, deliver_all}
use seidrum.Dispatch.Effects.{
  Covered, Tracked, Tracked-update_status, Inv, sync_chain-Inv, fan_out-Inv, push_all,
}

module _ {V : Type 0} where
  abbrev pub ids : List (SubscriptionEntry V) → List Text
  ids = map λ e. e.id

Covered-push_all :
    (ds : List DeliveryRecord) (xs seen : List Text)
    → Covered ds (push_all xs seen)
    → Covered ds xs × Covered ds seen
Covered-push_all ds [] seen c = (tt, c)
Covered-push_all ds (x ∷ xs) seen c =
    let (all, first) = Covered-push_all ds xs (x ∷ seen) c in ((first.0, all), first.1)

module _ {V : Type 0} where
  -- Each subscription is sync or async.
  Covered-modes :
      (ds : List DeliveryRecord) (es : List (SubscriptionEntry V))
      → Covered ds (ids (retain (λ e. is_sync e.mode) es))
      → Covered ds (ids (retain (λ e. is_async e.mode) es))
      → Covered ds (ids es)
  Covered-modes ds [] s a = tt
  Covered-modes ds (e ∷ es) s a = ground (arith, Covered-modes ds es)

  sync_ids-snapshot :
      {Sender Interceptor : Type 0} (st : DispatchState V Sender Interceptor)
      (es : List (SubscriptionEntry V))
      → map (λ e. e.id) (sync_snapshot st es) ≡ ids es
  unfolding sync_snapshot
  sync_ids-snapshot st [] = refl
  sync_ids-snapshot st (e ∷ es) = ap (◌∷◌ e.id) (sync_ids-snapshot st es)

  async_ids-snapshot :
      {Sender Interceptor : Type 0} (st : DispatchState V Sender Interceptor)
      (es : List (SubscriptionEntry V))
      → map (λ e. e.0) (async_snapshot st es) ≡ ids es
  unfolding async_snapshot
  async_ids-snapshot st [] = refl
  async_ids-snapshot st (e ∷ es) = ap (◌∷◌ e.id) (async_ids-snapshot st es)

module _ {V S W Sender Interceptor Channel : Type 0}
    (en : Engine V S W Sender Interceptor Channel) where
  -- An interceptor drops the event in the chain that starts from `bus`.
  abbrev pub Dropped :
      Reads V Sender Interceptor → Job → Text → List (SubscriptionEntry V) → Bus S W → Type 0
  Dropped reads job payload es bus =
      (sync_chain en job (sync_snapshot reads.for_sync (retain (λ e. is_sync e.mode) es))
        (start en payload bus)).dropped
      ≡ true

  -- How a dispatch to `es` ends: dropped, or with a record for each of them and the status that says
  -- whether one failed.
  abbrev pub Verdict :
      Reads V Sender Interceptor
      → Job
      → Text
      → List (SubscriptionEntry V)
      → Bus S W
      → EventStatus
      → List DeliveryRecord
      → Type 0
  Verdict reads job payload es from status ds =
      (Dropped reads job payload es from × (status ≡ delivered))
      ⊎ (Covered ds (ids es)
          × (((status ≡ delivered) × AllDelivered ds) ⊎ (status ≡ partially_delivered)))

module _ {V S W Sender Interceptor Channel : Type 0} (en : Engine V S W Sender Interceptor Channel)
    (IsValid HasRoom : S → Type 0) (view : S → ℕ → Option StoredEvent)
    (laws : StoreLaws en.store IsValid HasRoom view) where
  abbrev pub Tracks : S → ℕ → StoredEvent → List DeliveryRecord → S → Type 0
  Tracks = Tracked en IsValid HasRoom view laws

  pub Tracks-set_status :
      (base : S) (job : Job) (e : StoredEvent) (ds : List DeliveryRecord) (bus : Bus S W)
      (status : EventStatus)
      → job.is_reply ≡ false
      → Tracks base job.seq e ds bus.store
      → Tracks base job.seq
          (with_status status e)
          ds
          (set_status en job.seq status job.is_reply bus).store
  unfolding set_status
  Tracks-set_status base job e ds bus status persisted t =
      rw persisted
        (Tracked-update_status en IsValid HasRoom view laws base job.seq e ds bus.store status t)

  -- The store at the end of a dispatch.
  pub record Ended (reads : Reads V Sender Interceptor) (base : S) (job : Job) (payload : Text)
      (e : StoredEvent) (es : List (SubscriptionEntry V)) (from bus : Bus S W) : Type 0 where
    pub status : EventStatus
    pub records : List DeliveryRecord
    pub tracked : Tracks base job.seq (with_status status e) records bus.store
    pub verdict : Verdict en reads job payload es from status records

  module _ (reads : Reads V Sender Interceptor) (base : S) (job : Job) (payload : Text)
      (e : StoredEvent) (persisted : job.is_reply ≡ false) where
    abbrev LoopInv : List Text → Chain S W → Type 0
    LoopInv = Inv en IsValid HasRoom view laws base e job persisted

    finish :
        (es : List (SubscriptionEntry V)) (from : Bus S W) (d : Chain S W) (seen : List Text)
        → LoopInv seen d
        → (Covered-all : (ds : List DeliveryRecord) → Covered ds seen → Covered ds (ids es))
        → Ended reads base job payload e es from (
            set_status en job.seq
              (if d.any_failed then partially_delivered else delivered)
              job.is_reply
              d.bus)
    finish es from d seen i all = elim (Bool-cases d.any_failed) [
      | inl bad ↦ rw bad (record {
        status = partially_delivered;
        records = i.records;
        tracked =
            Tracks-set_status base job e i.records d.bus partially_delivered persisted i.tracked;
        verdict = inr (all i.records i.covered, inr refl);
      })
      | inr good ↦ rw good (record {
        status = delivered;
        records = i.records;
        tracked = Tracks-set_status base job e i.records d.bus delivered persisted i.tracked;
        verdict = inr (all i.records i.covered, inl (refl, i.clean good));
      })
    ]

    pub deliver_all-Ended :
        (es : List (SubscriptionEntry V)) (bus : Bus S W)
        → Tracks base job.seq e [] bus.store
        → Ended reads base job payload e es bus (deliver_all en reads job payload es bus)
    unfolding deliver_all
    deliver_all-Ended es bus t =
        let syncs = sync_snapshot reads.for_sync (retain (λ e. is_sync e.mode) es) in
        let asyncs = async_snapshot reads.for_async (retain (λ e. is_async e.mode) es) in
        let c = sync_chain en job syncs (start en payload bus) in
        let (seen, inv, reached) =
          sync_chain-Inv en IsValid HasRoom view laws base e job persisted syncs []
            (start en payload bus)
            (unfold start in record { records = []; tracked = t; clean = λ _. tt; covered = tt }) in
        elim (Bool-cases c.dropped) [
          | inl stop ↦ rw stop (record {
            status = delivered;
            records = inv.records;
            tracked =
                Tracks-set_status base job e inv.records c.bus delivered persisted inv.tracked;
            verdict = inl (stop, refl);
          })
          | inr go ↦ rw go (
              finish es bus (fan_out en job asyncs c) (push_all (map (λ e. e.0) asyncs) seen)
                (fan_out-Inv en IsValid HasRoom view laws base e job persisted asyncs seen c inv)
                λ ds all.
                  let (a, s) = Covered-push_all ds (map (λ e. e.0) asyncs) seen all in
                  let s' =
                    Covered-push_all ds (map (λ e. e.id) syncs) []
                      (subst (Covered ds) (reached go) s) in
                  Covered-modes ds es
                    (subst (Covered ds)
                      (sync_ids-snapshot reads.for_sync (retain (λ e. is_sync e.mode) es)) s'.0)
                    (subst (Covered ds)
                      (async_ids-snapshot reads.for_async (retain (λ e. is_async e.mode) es)) a))
        ]
