-- ===== src/Store/Memory/Deliveries.antt =====
-- `record_delivery` of storage/memory_store.rs on the records of one event.
use seidrum.Base.{
  ℕ, ◌+◌, ◌≤◌, Text, text_eq, text_eq→eq, text_eq_refl, if◌then◌else◌, find, retain, length,
  Bool-cases, Option-cases, inl, inr, true, false, Option, none, some, List, [], ◌∷◌, ◌++◌, ◌≡◌,
  ◌⊎◌, refl, arith, sym, ◌∙◌, ap, on_some, subst,
}
use seidrum.Store.{DeliveryStatus, DeliveryRecord, Reason}
use seidrum.Store.Memory.{record_in, create_delivery, update_delivery, modify_first, has_subscriber}

-- What the subscriber's record becomes.
abbrev pub next_record :
    ℕ → Text → DeliveryStatus → Option Reason → Option ℕ → Option DeliveryRecord → DeliveryRecord
next_record now id status error next_retry none = create_delivery now id status error next_retry
next_record now id status error next_retry (some d) = update_delivery now status error next_retry d

update_delivery-has_subscriber :
    (id : Text) (now : ℕ) (status : DeliveryStatus) (error : Option Reason) (next_retry : Option ℕ)
    (d : DeliveryRecord)
    → has_subscriber id (update_delivery now status error next_retry d) ≡ has_subscriber id d
unfolding update_delivery
update_delivery-has_subscriber id now status error next_retry d = refl

create_delivery-has_subscriber :
    (j id : Text) (now : ℕ) (status : DeliveryStatus) (error : Option Reason)
    (next_retry : Option ℕ)
    → has_subscriber j (create_delivery now id status error next_retry) ≡ text_eq id j
unfolding create_delivery
create_delivery-has_subscriber j id now status error next_retry = refl

-- The number of records of a subscriber.
abbrev pub records_of : Text → List DeliveryRecord → ℕ
records_of j ds = length (retain (has_subscriber j) ds)

module _ (now : ℕ) (id : Text) (status : DeliveryStatus) (error : Option Reason)
    (next_retry : Option ℕ) where
  abbrev write : List DeliveryRecord → List DeliveryRecord
  write = record_in now id status error next_retry

  abbrev update : DeliveryRecord → DeliveryRecord
  update = update_delivery now status error next_retry

  abbrev created : DeliveryRecord
  created = create_delivery now id status error next_retry

  find-modify_self :
      (ds : List DeliveryRecord) (d : DeliveryRecord)
      → find (has_subscriber id) ds ≡ some d
      → find (has_subscriber id) (modify_first (has_subscriber id) update ds) ≡ some (update d)
  unfolding modify_first
  find-modify_self [] d h = cc
  find-modify_self (c ∷ ds) d h = elim (Bool-cases (has_subscriber id c)) [
    | inl hit ↦
        rw (hit, update_delivery-has_subscriber id now status error next_retry c, hit)
          (ap (λ (o : Option DeliveryRecord). on_some update o) (rw hit at h))
    | inr miss ↦ rw (miss, miss) (find-modify_self ds d (rw miss at h))
  ]

  find-modify_other :
      (j : Text) (ds : List DeliveryRecord)
      → text_eq id j ≡ false
      → find (has_subscriber j) (modify_first (has_subscriber id) update ds)
        ≡ find (has_subscriber j) ds
  unfolding modify_first
  find-modify_other j [] ne = refl
  find-modify_other j (c ∷ ds) ne = elim (Bool-cases (has_subscriber id c)) [
    | inl hit ↦
        let other : has_subscriber j c ≡ false =
          subst (λ k. text_eq k j ≡ false) (sym (text_eq→eq c.subscriber_id id hit)) ne in
        rw (hit, update_delivery-has_subscriber j now status error next_retry c, other)
    | inr miss ↦ rw miss (ground (arith, find-modify_other j ds ne))
  ]

  find-last :
      (j : Text) (ds : List DeliveryRecord) (d : DeliveryRecord)
      → find (has_subscriber j) ds ≡ none
      → find (has_subscriber j) (ds ++ d ∷ []) ≡ (if has_subscriber j d then some d else none)
  find-last j [] d h = refl
  find-last j (c ∷ ds) d h = ground (arith, find-last j ds d)

  find-last_other :
      (j : Text) (ds : List DeliveryRecord) (d : DeliveryRecord)
      → has_subscriber j d ≡ false
      → find (has_subscriber j) (ds ++ d ∷ []) ≡ find (has_subscriber j) ds
  find-last_other j [] d h = rw h
  find-last_other j (c ∷ ds) d h = ground (arith, find-last_other j ds d)

  -- Recording a delivery creates or updates the subscriber's record and leaves every other
  -- subscriber's as it was.
  pub find-record_in :
      (ds : List DeliveryRecord)
      → (find (has_subscriber id) (write ds)
          ≡ some (next_record now id status error next_retry (find (has_subscriber id) ds)))
        × ((j : Text)
            → text_eq id j ≡ false
            → find (has_subscriber j) (write ds) ≡ find (has_subscriber j) ds)
  unfolding record_in
  find-record_in ds = elim (Option-cases (find (has_subscriber id) ds)) [
    | inl missing ↦
        rw (missing, record_in)
          (
            find-last id ds created missing
                ∙ rw (
                  create_delivery-has_subscriber id id now status error next_retry,
                  text_eq_refl id,
                ),
            λ j ne.
                find-last_other j ds created
                  (create_delivery-has_subscriber j id now status error next_retry ∙ ne),
          )
    | inr (d, found) ↦
        rw (found, record_in) (find-modify_self ds d found, λ j ne. find-modify_other j ds ne)
  ]

  records-modify :
      (j : Text) (ds : List DeliveryRecord)
      → records_of j (modify_first (has_subscriber id) update ds) ≡ records_of j ds
  unfolding modify_first
  records-modify j [] = refl
  records-modify j (c ∷ ds) =
      ground
        (arith, update_delivery-has_subscriber j now status error next_retry c, records-modify j ds)

  records-last :
      (j : Text) (ds : List DeliveryRecord) (d : DeliveryRecord)
      → records_of j (ds ++ d ∷ []) ≡ records_of j ds + (if has_subscriber j d then 1 else 0)
  records-last j [] d = ground arith
  records-last j (c ∷ ds) d = ground (arith, records-last j ds d)

  records_none :
      (ds : List DeliveryRecord) → find (has_subscriber id) ds ≡ none → records_of id ds ≡ 0
  records_none [] h = refl
  records_none (c ∷ ds) h = ground (arith, records_none ds)

  -- If no subscriber has two records of an event, none has after a delivery is recorded.
  pub record_in_once :
      (ds : List DeliveryRecord)
      → ((j : Text) → records_of j ds ≤ 1)
      → (j : Text) → records_of j (write ds) ≤ 1
  unfolding record_in
  record_in_once ds once j = elim (Option-cases (find (has_subscriber id) ds)) [
    | inl missing ↦
        rw (missing, record_in)
          (rw
            (
              records-last j ds created,
              create_delivery-has_subscriber j id now status error next_retry,
            )
            (bound missing (Bool-cases (text_eq id j))))
    | inr (d, found) ↦ rw (found, record_in) (rw (records-modify j ds) (once j))
  ]
    where
      bound :
          find (has_subscriber id) ds ≡ none
          → (text_eq id j ≡ true) ⊎ (text_eq id j ≡ false)
          → records_of j ds + (if text_eq id j then 1 else 0) ≤ 1
      bound missing (inl same) =
          let e : id ≡ j = text_eq→eq id j same in
          let zeros : records_of j ds ≡ 0 =
            subst (λ k. records_of k ds ≡ 0) e (records_none ds missing) in
          rw (same, zeros) (omega arith)
      bound missing (inr other) = let h = once j in rw other (omega (arith, h))
