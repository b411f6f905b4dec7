-- ===== src/Store/Memory/Stuck.antt =====
-- Events of storage/memory_store.rs that are partially delivered and wait for nothing.
use seidrum.Base.{
  ℕ, zero, suc, ◌<◌, ◌==◌, any, take, retain, map, find, Bool, false, ◌||◌, Bool-cases, inl, inr,
  some, List, [], ◌∷◌, ◌++◌, ◌≡◌, refl, arith, ◌∙◌, ap, subst,
}
use seidrum.Error.{ok, ok_injective}
use seidrum.Index.Sort.{insert_sorted, sort_by_key}
use seidrum.Store.{
  EventStatus, DeliveryStatus, DeliveryRecord, StoredEvent, RetryableDelivery, delivery_eq,
  is_retryable,
}
use seidrum.Store.Memory.{
  MemoryStore, has_seq, retryable_of, retryable_in, scan_retryable, query_retryable, compact,
}
use seidrum.Store.Memory.Seq.{Rising}
use seidrum.Store.Memory.Events.{view, IsValid, view-compact}

abbrev pub for_event : ℕ → RetryableDelivery → Bool
for_event q r = r.seq == q

abbrev pub is_failed : DeliveryRecord → Bool
is_failed d = delivery_eq d.status DeliveryStatus.failed

any-append :
    {A : Type 0} (p : A → Bool) (xs ys : List A) → any p (xs ++ ys) ≡ (any p xs || any p ys)
any-append p [] ys = refl
any-append p (x ∷ xs) ys = ground (arith, any-append p xs ys)

any-take :
    {A : Type 0} (p : A → Bool) (n : ℕ) (xs : List A) → any p xs ≡ false → any p (take n xs) ≡ false
any-take p zero xs h = refl
any-take p (suc n) [] h = refl
any-take p (suc n) (x ∷ xs) h = ground (arith, any-take p n xs)

any-insert_sorted :
    {A : Type 0} (p : A → Bool) (key : A → ℕ) (x : A) (xs : List A)
    → any p (insert_sorted key x xs) ≡ (p x || any p xs)
unfolding insert_sorted
any-insert_sorted p key x [] = refl
any-insert_sorted p key x (y ∷ ys) = ground (arith, any-insert_sorted p key x ys)

any-sort_by_key :
    {A : Type 0} (p : A → Bool) (key : A → ℕ) (xs : List A) → any p (sort_by_key key xs) ≡ any p xs
unfolding sort_by_key
any-sort_by_key p key [] = refl
any-sort_by_key p key (x ∷ xs) =
    any-insert_sorted p key x (sort_by_key key xs) ∙ ap (λ b. p x || b) (any-sort_by_key p key xs)

module _ (max_attempts now q : ℕ) where
  other_event :
      (e : StoredEvent) (ds : List DeliveryRecord)
      → (e.seq == q) ≡ false
      → any (for_event q) (map (retryable_of e) (retain (λ d. is_retryable d max_attempts now) ds))
        ≡ false
  other_event e [] ne = refl
  other_event e (d ∷ ds) ne = ground (arith, other_event e ds ne)

  none_failed :
      (e : StoredEvent) (ds : List DeliveryRecord)
      → any is_failed ds ≡ false
      → any (for_event q) (map (retryable_of e) (retain (λ d. is_retryable d max_attempts now) ds))
        ≡ false
  unfolding is_retryable
  none_failed e [] h = refl
  none_failed e (d ∷ ds) h = ground (arith, none_failed e ds)

  above :
      (k : ℕ) (es : List StoredEvent)
      → Rising k es
      → q < k
      → any (for_event q) (scan_retryable max_attempts now es) ≡ false
  unfolding scan_retryable
  above k [] r h = refl
  above k (e ∷ es) r h =
      let ne : (e.seq == q) ≡ false = ground (arith, r.0) in
      any-append (for_event q) (retryable_in max_attempts now e) _
      ∙ rw (other_event e e.deliveries ne, above (suc e.seq) es r.1 (omega (arith, r.0)))

  unoffered :
      (k : ℕ) (es : List StoredEvent) (e : StoredEvent)
      → Rising k es
      → find (has_seq q) es ≡ some e
      → any is_failed e.deliveries ≡ false
      → any (for_event q) (scan_retryable max_attempts now es) ≡ false
  unfolding scan_retryable
  unoffered k [] e r h quiet = cc
  unoffered k (d ∷ es) e r h quiet = elim (Bool-cases (d.seq == q)) [
    | inl hit ↦
        let same : e ≡ d = ground (arith, hit) in
        any-append (for_event q) (retryable_in max_attempts now d) _
        ∙ rw (
          none_failed d d.deliveries (subst (λ x. any is_failed x.deliveries ≡ false) same quiet),
          above (suc d.seq) es r.1 (ground (arith, hit)),
        )
    | inr miss ↦
        any-append (for_event q) (retryable_in max_attempts now d) _
        ∙ rw (
          other_event d d.deliveries miss,
          unoffered (suc d.seq) es e r.1 (ground (arith, miss)) quiet,
        )
  ]

-- On a valid store, a partially delivered event none of whose records is failed is never offered
-- for a retry, and compaction keeps it.
pub partially_delivered_stuck :
    (now max_attempts limit older_than q : ℕ) (e : StoredEvent) (s : MemoryStore)
    (rs : List RetryableDelivery)
    → IsValid s
    → view s q ≡ some e
    → e.status ≡ EventStatus.partially_delivered
    → any is_failed e.deliveries ≡ false
    → query_retryable now max_attempts limit s ≡ ok rs
    → (any (for_event q) rs ≡ false) × (view (compact now older_than s).1 q ≡ some e)
unfolding query_retryable
partially_delivered_stuck now max_attempts limit older_than q e s rs valid held partial quiet
      given =
    (
      subst (λ (l : List RetryableDelivery). any (for_event q) l ≡ false) (ok_injective given)
          (any-take (for_event q) limit _ (
            any-sort_by_key (for_event q) _ (scan_retryable max_attempts now s.events)
            ∙ unoffered max_attempts now q 1 s.events e valid held quiet)),
      view-compact now older_than s valid q ∙ rw held (ground (arith, partial)),
    )
