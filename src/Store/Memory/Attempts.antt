-- ===== src/Store/Memory/Attempts.antt =====
-- The attempts that `record_delivery` of storage/memory_store.rs counts over a history.
use seidrum.Base.{
  ℕ, ◌+◌, ◌<◌, Text, if◌then◌else◌, find, inl, inr, Bool-cases, Option, none, some, List, [], ◌∷◌,
  ◌≡◌, refl, arith, subst,
}
use seidrum.Store.{
  DeliveryStatus, dead_lettered, DeliveryRecord, Reason, delivery_eq, next_u32, u32_mod,
}
use seidrum.Store.Memory.{record_in, has_subscriber, counts, create_delivery, update_delivery}
use seidrum.Store.Memory.Deliveries.{find-record_in}

-- One call of `record_delivery` for the subscriber.
pub record Outcome : Type 0 where
  pub now : ℕ
  pub status : DeliveryStatus
  pub error : Option Reason
  pub next_retry : Option ℕ

pub record_all : Text → List Outcome → List DeliveryRecord → List DeliveryRecord
record_all id [] ds = ds
record_all id (o ∷ os) ds = record_all id os (record_in o.now id o.status o.error o.next_retry ds)

-- The outcomes that the code means to count: failed and dead-lettered ones.
abbrev pub real_attempts : List Outcome → ℕ
real_attempts [] = 0
real_attempts (o ∷ os) = (if counts o.status then 1 else 0) + real_attempts os

abbrev Attempted : Text → List DeliveryRecord → ℕ → Type 0
Attempted id ds n = (d : DeliveryRecord) × (find (has_subscriber id) ds ≡ some d) × (d.attempts ≡ n)

update_delivery-attempts :
    (now : ℕ) (status : DeliveryStatus) (error : Option Reason) (next_retry : Option ℕ)
    (d : DeliveryRecord)
    → d.attempts + 1 < u32_mod
    → (update_delivery now status error next_retry d).attempts
      ≡ (if counts status then 1 else 0) + d.attempts
unfolding update_delivery next_u32
update_delivery-attempts now status error next_retry d h = elim (Bool-cases (counts status)) [
  | inl yes_ ↦ rw yes_ (omega arith)
  | inr no_ ↦ rw no_ (omega arith)
]

one_more :
    (id : Text) (o : Outcome) (ds : List DeliveryRecord) (n : ℕ)
    → n + 1 < u32_mod
    → Attempted id ds n
    → Attempted id
        (record_in o.now id o.status o.error o.next_retry ds)
        ((if counts o.status then 1 else 0) + n)
one_more id o ds n room (d, found, same) =
    let e = (find-record_in o.now id o.status o.error o.next_retry ds).0 in
    (
      update_delivery o.now o.status o.error o.next_retry d,
      (rw found at e),
      rw (← same) (update_delivery-attempts o.now o.status o.error o.next_retry d (omega arith)),
    )

record_all-attempts :
    (id : Text) (os : List Outcome) (ds : List DeliveryRecord) (n : ℕ)
    → n + real_attempts os + 1 < u32_mod
    → Attempted id ds n
    → Attempted id (record_all id os ds) (n + real_attempts os)
unfolding record_all
record_all-attempts id [] ds n room a = subst (Attempted id ds) (omega arith) a
record_all-attempts id (o ∷ os) ds n room a =
    subst (Attempted id (record_all id os (record_in o.now id o.status o.error o.next_retry ds)))
      (omega arith)
      (record_all-attempts id os (record_in o.now id o.status o.error o.next_retry ds)
        ((if counts o.status then 1 else 0) + n) (omega arith) (one_more id o ds n (omega arith) a))

create_delivery-attempts :
    (now : ℕ) (id : Text) (status : DeliveryStatus) (error : Option Reason) (next_retry : Option ℕ)
    → (create_delivery now id status error next_retry).attempts
        + (if delivery_eq status dead_lettered then 1 else 0)
      ≡ (if counts status then 1 else 0)
unfolding create_delivery
create_delivery-attempts now id status error next_retry = ground arith

-- For a subscriber without a record, the attempts counted after a history of outcomes are its
-- failed and dead-lettered outcomes, less one if the first outcome was dead-lettered.
pub attempts-history :
    (id : Text) (o : Outcome) (os : List Outcome) (ds : List DeliveryRecord)
    → find (has_subscriber id) ds ≡ none
    → real_attempts (o ∷ os) + 2 < u32_mod
    → (d : DeliveryRecord) × (find (has_subscriber id) (record_all id (o ∷ os) ds) ≡ some d)
      × (d.attempts + (if delivery_eq o.status dead_lettered then 1 else 0)
          ≡ real_attempts (o ∷ os))
unfolding record_all
attempts-history id o os ds missing room =
    let first = create_delivery o.now id o.status o.error o.next_retry in
    let counted = create_delivery-attempts o.now id o.status o.error o.next_retry in
    let e = (find-record_in o.now id o.status o.error o.next_retry ds).0 in
    let (d, found, same) =
      record_all-attempts id os (record_in o.now id o.status o.error o.next_retry ds) first.attempts
        (omega arith) (first, (rw missing at e), refl) in
    (d, found, omega arith)
