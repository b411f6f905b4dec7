-- ===== src/Dispatch/Finalize/Closes.antt =====
-- `maybe_finalize_event` of delivery/retry.rs and the store at its end.
use seidrum.Base.{ℕ, Text, any, Bool-cases, inl, inr, Option, List}
use seidrum.Store.{EventStatus, DeliveryRecord, StoredEvent}
use seidrum.Store.Interface.{StoreLaws, with_status}
use seidrum.Dispatch.Record.{Engine, Bus}
use seidrum.Dispatch.Effects.{Tracked, Tracked-update_status}
use seidrum.Dispatch.Retry.{maybe_finalize_event, is_dead}
use seidrum.Dispatch.Finalize.Rules.{
  is_open, Finalized, still_open, with_dead, all_delivered, none_dead,
}

module _ {V S W Sender Interceptor Channel : Type 0} (en : Engine V S W Sender Interceptor Channel)
    (channels : List (Text × Channel)) (IsValid HasRoom : S → Type 0)
    (view : S → ℕ → Option StoredEvent) (laws : StoreLaws en.store IsValid HasRoom view) (base : S)
    (q : ℕ) (e : StoredEvent) where
  abbrev Tracks : StoredEvent → List DeliveryRecord → S → Type 0
  Tracks = Tracked en IsValid HasRoom view laws base q

  -- The event has these records, and the status that they call for.
  abbrev Closes : List DeliveryRecord → S → Type 0
  Closes ds s =
      (status : EventStatus) × Tracks (with_status status e) ds s × Finalized ds e.status status

  pub maybe_finalize-Closes :
      (ds : List DeliveryRecord) (bus : Bus S W)
      → Tracks e ds bus.store
      → Closes ds (maybe_finalize_event en channels q bus).store
  unfolding maybe_finalize_event
  maybe_finalize-Closes ds bus t =
      rw (laws.get_view q bus.store, t.held, maybe_finalize_event)
        (elim (Bool-cases (any is_open ds)) [
          | inl yes_ ↦ rw yes_ (e.status, same t, still_open yes_)
          | inr no_ ↦ rw no_ (elim (Bool-cases (any is_dead ds)) [
            | inl lost ↦ rw lost (
              EventStatus.dead_lettered,
              Tracked-update_status en IsValid HasRoom view laws base q e ds bus.store
                  EventStatus.dead_lettered t,
              with_dead no_ lost,
            )
            | inr kept ↦ rw kept (
              EventStatus.delivered,
              Tracked-update_status en IsValid HasRoom view laws base q e ds bus.store
                  EventStatus.delivered t,
              all_delivered (none_dead ds no_ kept),
            )
          ])
        ])
    where
      same : Tracks e ds bus.store → Tracks (with_status e.status e) ds bus.store
      same t = record { held = t.held; others = t.others; valid = t.valid }
