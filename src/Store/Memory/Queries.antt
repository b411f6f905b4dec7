-- ===== src/Store/Memory/Queries.antt =====
-- The queries of storage/memory_store.rs and the default `query_dead_lettered` of storage/mod.rs.
use seidrum.Base.{
  length-take, ℕ, zero, suc, ◌+◌, ◌<◌, min, Text, text_eq, leb, length, length-append, take, retain,
  map, Bool-cases, inl, inr, true, false, some, List, [], ◌∷◌, ◌++◌, ◌≡◌, refl, arith, ap, subst,
}
use seidrum.Error.{ok, ok_injective}
use seidrum.Index.Sort.{
  length-sort_by_key, take-IsSorted, sort_by_key, sort_by_key-IsSorted, IsSorted, insert_sorted,
}
use seidrum.Store.{
  StoredEvent, EventStatus, DeliveryRecord, RetryableDelivery, is_retryable, due, status_eq,
}
use seidrum.Store.Memory.{
  MemoryStore, query_retryable, count_retryable, scan_retryable, retryable_in, retryable_of,
  count_in, count_events, or_zero, query_dead_lettered, query_by_status,
}

length-map : {A B : Type 0} (f : A → B) (xs : List A) → length (map f xs) ≡ length xs
length-map f [] = refl
length-map f (x ∷ xs) = ap suc (length-map f xs)

count_in-length :
    (max_attempts now : ℕ) (ds : List DeliveryRecord) (n : ℕ)
    → count_in max_attempts now ds n ≡ n + length (retain (λ d. is_retryable d max_attempts now) ds)
unfolding count_in
count_in-length max_attempts now [] n = omega arith
count_in-length max_attempts now (d ∷ ds) n =
    ground
      (arith, count_in-length max_attempts now ds n, count_in-length max_attempts now ds (n + 1))

count_events-length :
    (max_attempts now : ℕ) (es : List StoredEvent) (n : ℕ)
    → count_events max_attempts now es n ≡ n + length (scan_retryable max_attempts now es)
unfolding count_events scan_retryable
count_events-length max_attempts now [] n = omega arith
count_events-length max_attempts now (e ∷ es) n = omega (
  arith,
  count_events-length max_attempts now es (count_in max_attempts now e.deliveries n),
  count_in-length max_attempts now e.deliveries n,
  length-append (retryable_in max_attempts now e) (scan_retryable max_attempts now es),
  length-map (retryable_of e) (retain (λ d. is_retryable d max_attempts now) e.deliveries),
)

abbrev pub due_time : RetryableDelivery → ℕ
due_time r = or_zero r.next_retry

-- `query_retryable` returns deliveries in the order of their due times, and as many as the limit
-- and `count_retryable` allow.
pub query_retryable-count :
    (now max_attempts limit : ℕ) (s : MemoryStore)
    → (rs : List RetryableDelivery) × (n : ℕ) × (query_retryable now max_attempts limit s ≡ ok rs)
      × (count_retryable now max_attempts s ≡ ok n)
      × (length rs ≡ min limit n)
      × IsSorted due_time rs
unfolding query_retryable count_retryable
query_retryable-count now max_attempts limit s =
    let found = scan_retryable max_attempts now s.events in
    let sorted = sort_by_key due_time found in
    (
      take limit sorted,
      count_events max_attempts now s.events 0,
      refl,
      refl,
      omega (
        arith,
        length-take limit sorted,
        length-sort_by_key due_time found,
        count_events-length max_attempts now s.events 0,
      ),
      take-IsSorted due_time limit sorted (sort_by_key-IsSorted due_time found),
    )

-- Each of them was due and below the cap.
abbrev pub Due : ℕ → ℕ → RetryableDelivery → Type 0
Due max_attempts now r = (r.attempts < max_attempts) × (due r.next_retry now ≡ true)

abbrev pub AllDue : ℕ → ℕ → List RetryableDelivery → Type 0
AllDue max_attempts now [] = Unit
AllDue max_attempts now (r ∷ rs) = Due max_attempts now r × AllDue max_attempts now rs

module _ (max_attempts now : ℕ) where
  AllDue-append :
      (rs qs : List RetryableDelivery)
      → AllDue max_attempts now rs
      → AllDue max_attempts now qs
      → AllDue max_attempts now (rs ++ qs)
  AllDue-append [] qs h k = k
  AllDue-append (r ∷ rs) qs h k = (h.0, AllDue-append rs qs h.1 k)

  retryable_in-AllDue :
      (e : StoredEvent) (ds : List DeliveryRecord)
      → AllDue max_attempts now
          (map (retryable_of e) (retain (λ d. is_retryable d max_attempts now) ds))
  unfolding is_retryable
  retryable_in-AllDue e [] = tt
  retryable_in-AllDue e (d ∷ ds) = ground (arith, retryable_in-AllDue e ds)

  scan_retryable-AllDue :
      (es : List StoredEvent) → AllDue max_attempts now (scan_retryable max_attempts now es)
  unfolding scan_retryable
  scan_retryable-AllDue [] = tt
  scan_retryable-AllDue (e ∷ es) =
      AllDue-append (retryable_in max_attempts now e) _ (retryable_in-AllDue e e.deliveries)
        (scan_retryable-AllDue es)

  insert_sorted-AllDue :
      (r : RetryableDelivery) (rs : List RetryableDelivery)
      → Due max_attempts now r
      → AllDue max_attempts now rs
      → AllDue max_attempts now (insert_sorted due_time r rs)
  unfolding insert_sorted
  insert_sorted-AllDue r [] h k = (h, tt)
  insert_sorted-AllDue r (q ∷ qs) h k = elim (Bool-cases (leb (due_time r) (due_time q))) [
    | inl first ↦ rw first (h, k)
    | inr later ↦ rw later (k.0, insert_sorted-AllDue r qs h k.1)
  ]

  sort_by_key-AllDue :
      (rs : List RetryableDelivery)
      → AllDue max_attempts now rs
      → AllDue max_attempts now (sort_by_key due_time rs)
  unfolding sort_by_key
  sort_by_key-AllDue [] h = tt
  sort_by_key-AllDue (r ∷ rs) h = insert_sorted-AllDue r _ h.0 (sort_by_key-AllDue rs h.1)

  take-AllDue :
      (n : ℕ) (rs : List RetryableDelivery)
      → AllDue max_attempts now rs
      → AllDue max_attempts now (take n rs)
  take-AllDue zero rs h = tt
  take-AllDue (suc n) [] h = tt
  take-AllDue (suc n) (r ∷ rs) h = (h.0, take-AllDue n rs h.1)

  -- Every delivery that `query_retryable` returns is below the cap of attempts and due.
  pub query_retryable-AllDue :
      (limit : ℕ) (s : MemoryStore) (rs : List RetryableDelivery)
      → query_retryable now max_attempts limit s ≡ ok rs
      → AllDue max_attempts now rs
  unfolding query_retryable
  query_retryable-AllDue limit s rs h =
      let all = take-AllDue limit _ (sort_by_key-AllDue _ (scan_retryable-AllDue s.events)) in
      subst (AllDue max_attempts now) (ok_injective h) all

-- Dead-lettered events of other subjects.
abbrev pub Others : Text → List StoredEvent → Type 0
Others subject [] = Unit
Others subject (e ∷ es) =
    (e.status ≡ EventStatus.dead_lettered) × (text_eq e.subject subject ≡ false) × Others subject es

taken-Others :
    (subject : Text) (es rest : List StoredEvent)
    → Others subject es
    → retain
        (λ e. text_eq e.subject subject)
        (take (length es) (retain (λ e. status_eq e.status EventStatus.dead_lettered) (es ++ rest)))
      ≡ []
taken-Others subject [] rest h = refl
taken-Others subject (e ∷ es) rest (dead, other, h) =
    rw (dead, other) (taken-Others subject es rest h)

take_nil : {A : Type 0} (n : ℕ) → take {A = A} n [] ≡ []
take_nil zero = refl
take_nil (suc n) = refl

-- If the store begins with dead-lettered events of other subjects, as many as the limit, a query
-- of the dead-lettered events by subject finds nothing.
pub query_dead_lettered_misses :
    (subject : Text) (es rest : List StoredEvent) (s : MemoryStore)
    → s.events ≡ es ++ rest
    → Others subject es
    → query_dead_lettered (some subject) (length es) s ≡ ok []
unfolding query_dead_lettered query_by_status
query_dead_lettered_misses subject es rest s held h =
    rw (held, taken-Others subject es rest h, take_nil (length es))
