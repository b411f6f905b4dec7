-- ===== src/Dispatch/Api.antt =====
-- The public `publish` of bus.rs, which refuses the subjects of replies.
use seidrum.Base.{
  ℕ, ◌==◌, if◌then◌else◌, Text, starts_with, Bool-cases, inl, inr, ◌⊎◌, false, Option, none, some,
  List, ◌≡◌, refl,
}
use seidrum.Error.{Result, ok, err, EventBusError, invalid_subject, reserved, Result-cases}
use seidrum.Store.{EventStatus, DeliveryRecord, StoredEvent}
use seidrum.Store.Memory.{stamped}
use seidrum.Store.Interface.{StoreLaws}
use seidrum.Dispatch.Record.{Engine, Bus}
use seidrum.Dispatch.Publish.{Reads, new_event, reply_prefix, validate_publish, publish_event}
use seidrum.Dispatch.Published.{publish_event-recorded}

module _ {V S W Sender Interceptor Channel : Type 0}
    (en : Engine V S W Sender Interceptor Channel) where
  unfoldable pub publish :
      Reads V Sender Interceptor
      → Option Text
      → Text
      → Text
      → Bus S W
      → Result EventBusError ℕ × Bus S W
  unfolding publish_event reply_prefix
  publish reads intercepting subject payload bus =
      if starts_with (reply_prefix en) subject
      then (err (invalid_subject reserved), bus)
      else publish_event en reads intercepting subject payload none bus

  refused :
      (reads : Reads V Sender Interceptor) (intercepting : Option Text) (subject payload : Text)
      (bus : Bus S W) {e : EventBusError}
      → validate_publish en intercepting subject payload ≡ err e
      → publish_event en reads intercepting subject payload none bus ≡ (err e, bus)
  unfolding publish_event
  refused reads intercepting subject payload bus failed = rw (failed, publish_event)

module _ {V S W Sender Interceptor Channel : Type 0} (en : Engine V S W Sender Interceptor Channel)
    (IsValid HasRoom : S → Type 0) (view : S → ℕ → Option StoredEvent)
    (laws : StoreLaws en.store IsValid HasRoom view) where
  -- The event is stored under a number that was free, whatever became of its delivery.
  abbrev pub Stored : Text → Text → Bus S W → Result EventBusError ℕ × Bus S W → Type 0
  Stored subject payload bus (result, bus') =
      (q : ℕ) × (status : EventStatus) × (ds : List DeliveryRecord) × (result ≡ ok q)
      × (view bus.store q ≡ none)
      × (view bus'.store q
          ≡ some
              (record (stamped q (en.runtime.now bus.world).0 (new_event en subject payload none)) {
                status = status;
                deliveries = ds;
              }))
      × ((j : ℕ) → (q == j) ≡ false → view bus'.store j ≡ view bus.store j)
      × IsValid bus'.store

  abbrev pub Refused : Bus S W → Result EventBusError ℕ × Bus S W → Type 0
  Refused bus (result, bus') = (e : EventBusError) × (result ≡ err e) × (bus' ≡ bus)

  -- Over a valid store with room, the public `publish` either returns an error and changes
  -- nothing, or returns a number that was free; then the number holds the stamped event, other
  -- numbers are unchanged and the store is valid.
  pub publish_decides :
      (reads : Reads V Sender Interceptor) (intercepting : Option Text) (subject payload : Text)
      (bus : Bus S W)
      → IsValid bus.store
      → HasRoom bus.store
      → Refused bus (publish en reads intercepting subject payload bus)
        ⊎ Stored subject payload bus (publish en reads intercepting subject payload bus)
  unfolding publish
  publish_decides reads intercepting subject payload bus valid room =
      elim (Bool-cases (starts_with (reply_prefix en) subject)) [
        | inl reply ↦ inl (rw reply (_, refl, refl))
        | inr event ↦ elim (Result-cases (validate_publish en intercepting subject payload)) [
          | inr (e, failed) ↦ inl (
              rw event
                (rw (refused en reads intercepting subject payload bus failed) (e, refl, refl)))
          | inl (_, passed) ↦
              let (q, status, ds, given, free, held, others, valid', verdict) =
                publish_event-recorded en IsValid HasRoom view laws reads intercepting subject
                  payload none bus passed event valid room in
              inr (rw event (q, status, ds, given, free, held, others, valid'))
        ]
      ]
