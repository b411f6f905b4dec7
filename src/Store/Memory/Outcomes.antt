-- ===== src/Store/Memory/Outcomes.antt =====
-- Facts about an event's records that hold while a dispatch or a retry writes them.
use seidrum.Base.{
  ℕ, Text, text_eq_refl, find, any, inl, inr, Bool-cases, Option-cases, true, ◌||◌, Option, some,
  List, [], ◌∷◌, ◌++◌, ◌≡◌, refl, arith, ◌∙◌,
}
use seidrum.Store.{DeliveryStatus, delivered, DeliveryRecord, Reason}
use seidrum.Store.Memory.{record_in, create_delivery, update_delivery, modify_first, has_subscriber}

-- Every record says that the event was delivered.
abbrev pub AllDelivered : List DeliveryRecord → Type 0
AllDelivered [] = Unit
AllDelivered (d ∷ ds) = (d.status ≡ delivered) × AllDelivered ds

-- The subscriber has a record.
abbrev pub Recorded : List DeliveryRecord → Text → Type 0
Recorded ds id = any (has_subscriber id) ds ≡ true

AllDelivered-last :
    (ds : List DeliveryRecord) (d : DeliveryRecord)
    → d.status ≡ delivered
    → AllDelivered ds
    → AllDelivered (ds ++ d ∷ [])
AllDelivered-last [] d h a = (h, tt)
AllDelivered-last (c ∷ ds) d h a = (a.0, AllDelivered-last ds d h a.1)

AllDelivered-modify :
    (id : Text) (f : DeliveryRecord → DeliveryRecord) (ds : List DeliveryRecord)
    → ((d : DeliveryRecord) → (f d).status ≡ delivered)
    → AllDelivered ds
    → AllDelivered (modify_first (has_subscriber id) f ds)
unfolding modify_first
AllDelivered-modify id f [] h a = tt
AllDelivered-modify id f (d ∷ ds) h a = elim (Bool-cases (has_subscriber id d)) [
  | inl hit ↦ rw hit (h d, a.1)
  | inr miss ↦ rw miss (a.0, AllDelivered-modify id f ds h a.1)
]

pub AllDelivered-record_in :
    (now : ℕ) (id : Text) (error : Option Reason) (next_retry : Option ℕ) (ds : List DeliveryRecord)
    → AllDelivered ds
    → AllDelivered (record_in now id delivered error next_retry ds)
unfolding record_in
AllDelivered-record_in now id error next_retry ds a =
    elim (Option-cases (find (has_subscriber id) ds)) [
      | inl missing ↦
          rw (missing, record_in)
            (AllDelivered-last ds (create_delivery now id delivered error next_retry) refl a)
      | inr (d, found) ↦
          rw (found, record_in)
            (AllDelivered-modify id (update_delivery now delivered error next_retry) ds (λ _. refl)
              a)
    ]

any-last :
    (j : Text) (ds : List DeliveryRecord) (d : DeliveryRecord)
    → any (has_subscriber j) (ds ++ d ∷ []) ≡ (any (has_subscriber j) ds || has_subscriber j d)
any-last j [] d = ground arith
any-last j (c ∷ ds) d = ground (arith, any-last j ds d)

any-modify :
    (j id : Text) (f : DeliveryRecord → DeliveryRecord) (ds : List DeliveryRecord)
    → ((d : DeliveryRecord) → has_subscriber j (f d) ≡ has_subscriber j d)
    → any (has_subscriber j) (modify_first (has_subscriber id) f ds) ≡ any (has_subscriber j) ds
unfolding modify_first
any-modify j id f [] h = refl
any-modify j id f (d ∷ ds) h = ground (arith, h d, any-modify j id f ds h)

found-any :
    (id : Text) (ds : List DeliveryRecord) (d : DeliveryRecord)
    → find (has_subscriber id) ds ≡ some d
    → Recorded ds id
found-any id [] d h = cc
found-any id (c ∷ ds) d h = ground (arith, found-any id ds d)

module _ (now : ℕ) (id : Text) (status : DeliveryStatus) (error : Option Reason)
    (next_retry : Option ℕ) (ds : List DeliveryRecord) where
  -- Whoever has a record keeps it,
  pub Recorded-mono :
      (j : Text) → Recorded ds j → Recorded (record_in now id status error next_retry ds) j
  unfolding record_in
  Recorded-mono j h = elim (Option-cases (find (has_subscriber id) ds)) [
    | inl missing ↦
        rw (missing, record_in)
          (rw (any-last j ds (create_delivery now id status error next_retry), h) refl)
    | inr (d, found) ↦
        rw (found, record_in)
          (any-modify j id (update_delivery now status error next_retry) ds
              (λ _. unfold update_delivery in refl)
            ∙ h)
  ]

  -- and the subscriber written for has one.
  pub Recorded-self : Recorded (record_in now id status error next_retry ds) id
  unfolding record_in
  Recorded-self = elim (Option-cases (find (has_subscriber id) ds)) [
    | inl missing ↦
        rw (missing, record_in)
          (any-last id ds (create_delivery now id status error next_retry)
            ∙ unfold create_delivery in ground (arith, text_eq_refl id))
    | inr (d, found) ↦
        rw (found, record_in)
          (any-modify id id (update_delivery now status error next_retry) ds
              (λ _. unfold update_delivery in refl)
            ∙ found-any id ds d found)
  ]
