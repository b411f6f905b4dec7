-- ===== src/Dispatch/Dispatched.antt =====
-- `dispatch_persisted_event` of dispatch/engine.rs, from the lookup to the last change of status.
use seidrum.Base.{
  ℕ, if◌then◌else◌, Text, retain, true, false, Bool-cases, inl, inr, Option, List, [], ◌∷◌, ◌≡◌,
  refl,
}
use seidrum.Store.{EventStatus, delivered, dispatching, StoredEvent}
use seidrum.Store.Interface.{StoreLaws, with_status}
use seidrum.Index.{SubscriptionEntry, lookup}
use seidrum.Dispatch.Record.{Engine, Bus, set_status}
use seidrum.Dispatch.Chain.{Job}
use seidrum.Dispatch.Publish.{Reads, is_nil, wants, deliver_all, dispatch_persisted_event}
use seidrum.Dispatch.Delivery.{Tracks, Tracks-set_status, Ended, deliver_all-Ended}

module _ {V S W Sender Interceptor Channel : Type 0} (en : Engine V S W Sender Interceptor Channel)
    (IsValid HasRoom : S → Type 0) (view : S → ℕ → Option StoredEvent)
    (laws : StoreLaws en.store IsValid HasRoom view) where
  module _ (reads : Reads V Sender Interceptor) (base : S) (job : Job) (payload : Text)
      (e : StoredEvent) (persisted : job.is_reply ≡ false) where
    set_status-Tracks :
        (bus : Bus S W) (f : StoredEvent) (status : EventStatus)
        → Tracks en IsValid HasRoom view laws base job.seq f [] bus.store
        → Tracks en IsValid HasRoom view laws base job.seq
            (with_status status f)
            []
            (set_status en job.seq status job.is_reply bus).store
    set_status-Tracks bus f status t =
        Tracks-set_status en IsValid HasRoom view laws base job f [] bus status persisted t

    -- The subscriptions that the event reaches: those found whose filters take it.
    abbrev pub targets : List (SubscriptionEntry V)
    targets = retain (wants en payload) (lookup job.subject reads.resolve.index)

    nothing :
        (es : List (SubscriptionEntry V)) (from bus : Bus S W)
        → is_nil es ≡ true
        → Tracks en IsValid HasRoom view laws base job.seq (with_status delivered e) [] bus.store
        → Ended en IsValid HasRoom view laws reads base job payload e es from bus
    nothing [] from bus h t = record {
      status = delivered;
      records = [];
      tracked = t;
      verdict = inr (tt, inl (refl, tt));
    }
    nothing (x ∷ es) from bus h t = cc

    retain_nil :
        (es : List (SubscriptionEntry V))
        → is_nil es ≡ true
        → is_nil (retain (wants en payload) es) ≡ true
    retain_nil [] h = refl
    retain_nil (x ∷ es) h = cc

    same_status :
        (es : List (SubscriptionEntry V)) (from bus : Bus S W)
        → Ended en IsValid HasRoom view laws reads base job payload
            (with_status dispatching e)
            es
            from
            bus
        → Ended en IsValid HasRoom view laws reads base job payload e es from bus
    same_status es from bus d = record {
      status = d.status;
      records = d.records;
      tracked = d.tracked;
      verdict = d.verdict;
    }

    by_filter :
        (bus : Bus S W)
        → Tracks en IsValid HasRoom view laws base job.seq e [] bus.store
        → Ended en IsValid HasRoom view laws reads base job payload e targets
            (set_status en job.seq dispatching job.is_reply bus)
            (if is_nil targets
              then set_status en job.seq delivered job.is_reply
                  (set_status en job.seq dispatching job.is_reply bus)
              else deliver_all en reads job payload targets
                  (set_status en job.seq dispatching job.is_reply bus))
    by_filter bus t =
        let t' = set_status-Tracks bus e dispatching t in
        elim (Bool-cases (is_nil targets)) [
          | inl no_target ↦ rw no_target (
              nothing targets _ _ no_target (
                set_status-Tracks (set_status en job.seq dispatching job.is_reply bus)
                  (with_status dispatching e) delivered t'))
          | inr some_target ↦ rw some_target (
              same_status targets _ _ (
                deliver_all-Ended en IsValid HasRoom view laws reads base job payload
                  (with_status dispatching e) persisted targets _ t'))
        ]

    pub dispatch-Ended :
        (bus : Bus S W)
        → Tracks en IsValid HasRoom view laws base job.seq e [] bus.store
        → Ended en IsValid HasRoom view laws reads base job payload e targets
            (set_status en job.seq dispatching job.is_reply bus)
            (dispatch_persisted_event en reads job payload bus)
    unfolding dispatch_persisted_event
    dispatch-Ended bus t =
        let found = lookup job.subject reads.resolve.index in
        elim (Bool-cases (is_nil found)) [
          | inl none_found ↦ rw none_found (
              nothing targets _ _ (retain_nil found none_found)
                (set_status-Tracks bus e delivered t))
          | inr some_found ↦ rw some_found (by_filter bus t)
        ]
