-- ===== src/Store/Memory/Events.antt =====
-- The operations of storage/memory_store.rs on events, seen through a map from sequence numbers to
-- events.
use seidrum.Base.{
  ℕ, suc, ◌+◌, ◌-◌, ◌<◌, ◌==◌, if◌then◌else◌, on_some, filtered, retain, find, length,
  length-retain-le, Option-cases, inl, inr, Bool, true, false, Option, none, some, List, [], ◌∷◌,
  ◌++◌, ◌≡◌, ◌≢◌, refl, ap, arith, ◌∙◌,
}
use seidrum.Error.{ok, err, not_found, not_dead_lettered}
use seidrum.Store.{EventStatus, StoredEvent, status_ne, u64_mod}
use seidrum.Store.Memory.{
  MemoryStore, append, modify, compact, keeps, requeue_dead_lettered, requeued, purge_dead_lettered,
  next_seq, has_seq, stamped, modify_first, remove_first,
}
use seidrum.Store.Memory.Seq.{
  Rising, past, next_seq-past, Rising-append, Rising-retain, Rising-remove_first,
  Rising-modify_first, find-past, find_below,
}

abbrev pub view : MemoryStore → ℕ → Option StoredEvent
view s seq = find (has_seq seq) s.events

abbrev pub IsValid : MemoryStore → Type 0
IsValid s = Rising 1 s.events

-- The next sequence number fits 64 bits.
abbrev pub HasRoom : MemoryStore → Type 0
HasRoom s = past 1 s.events < u64_mod

find-append_one :
    (j : ℕ) (es : List StoredEvent) (e : StoredEvent)
    → find (has_seq e.seq) es ≡ none
    → find (has_seq j) (es ++ e ∷ []) ≡ (if e.seq == j then some e else find (has_seq j) es)
find-append_one j [] e h = refl
find-append_one j (d ∷ es) e h = ground (arith, find-append_one j es e)

-- On a valid store with room `append` returns a number that was free, files the stamped event
-- under it, changes no other number and keeps the store valid.
pub view-append :
    (now : ℕ) (event : StoredEvent) (s : MemoryStore)
    → IsValid s
    → HasRoom s
    → let q = next_seq s.events in
      ((append now event s).0 ≡ ok q)
      × (view s q ≡ none)
      × ((j : ℕ)
          → view (append now event s).1 j
            ≡ (if q == j then some (stamped q now event) else view s j))
      × IsValid (append now event s).1
unfolding append
view-append now event s v room =
    let q = next_seq s.events in
    let next : q ≡ past 1 s.events = next_seq-past s.events room in
    let free : view s q ≡ none = find-past 1 q s.events v (omega arith) in
    (
      refl,
      free,
      λ j. find-append_one j s.events (stamped q now event) free,
      Rising-append 1 s.events (stamped q now event) v (omega arith),
    )

find-modify_first :
    (i j : ℕ) (f : StoredEvent → StoredEvent) (es : List StoredEvent)
    → ((e : StoredEvent) → (f e).seq ≡ e.seq)
    → find (has_seq j) (modify_first (has_seq i) f es)
      ≡ (if i == j then on_some f (find (has_seq i) es) else find (has_seq j) es)
unfolding modify_first
find-modify_first i j f [] same = ground arith
find-modify_first i j f (e ∷ es) same = ground (arith, same e, find-modify_first i j f es same)

if_same {ℓ} : {A : Type ℓ} (b : Bool) (x : A) → (if b then x else x) ≡ x
if_same true x = refl
if_same false x = refl

-- `modify` changes the event with the number, if there is one, and no other.
pub view-modify :
    (i : ℕ) (f : StoredEvent → StoredEvent) (s : MemoryStore)
    → ((e : StoredEvent) → (f e).seq ≡ e.seq)
    → (j : ℕ) → view (modify i f s).1 j ≡ (if i == j then on_some f (view s i) else view s j)
unfolding modify
view-modify i f s same j = elim (Option-cases (find (has_seq i) s.events)) [
  | inl missing ↦ rw (missing, modify) (ground arith)
  | inr (e, found) ↦ ground (arith, find-modify_first i j f s.events same)
]

pub modify-IsValid :
    (i : ℕ) (f : StoredEvent → StoredEvent) (s : MemoryStore)
    → ((e : StoredEvent) → (f e).seq ≡ e.seq)
    → IsValid s
    → IsValid (modify i f s).1
unfolding modify
modify-IsValid i f s same v = elim (Option-cases (find (has_seq i) s.events)) [
  | inl missing ↦ rw (missing, modify) v
  | inr (e, found) ↦ rw (found, modify) (Rising-modify_first (has_seq i) f same 1 s.events v)
]

-- The result says whether there was one.
pub modify_result :
    (i : ℕ) (f : StoredEvent → StoredEvent) (s : MemoryStore)
    → (modify i f s).0 ≡ elim (view s i) [ none ↦ err not_found | some _ ↦ ok tt ]
unfolding modify
modify_result i f s = ground arith

-- What a filter on events leaves under a number: the event, if the filter keeps it.
find-retain :
    (p : StoredEvent → Bool) (k j : ℕ) (es : List StoredEvent)
    → Rising k es
    → find (has_seq j) (retain p es) ≡ filtered p (find (has_seq j) es)
find-retain p k j [] r = refl
find-retain p k j (e ∷ es) r =
    ground (arith, find-retain p (suc e.seq) j es r.1, find_below (suc e.seq) j es r.1)

-- On a valid store compaction removes the events in a terminal state that are older than the
-- threshold, and no others.
pub view-compact :
    (now older_than : ℕ) (s : MemoryStore)
    → IsValid s
    → (j : ℕ) → view (compact now older_than s).1 j ≡ filtered (keeps (now - older_than)) (view s j)
unfolding compact
view-compact now older_than s v j = find-retain (keeps (now - older_than)) 1 j s.events v

pub compact-IsValid :
    (now older_than : ℕ) (s : MemoryStore) → IsValid s → IsValid (compact now older_than s).1
unfolding compact
compact-IsValid now older_than s v = Rising-retain (keeps (now - older_than)) 1 s.events v

-- The number that compaction reports is the number of events that it removed.
pub compact_count :
    (now older_than removed : ℕ) (s : MemoryStore)
    → (compact now older_than s).0 ≡ ok removed
    → length s.events ≡ removed + length (compact now older_than s).1.events
unfolding compact
compact_count now older_than removed s h =
    let fewer = length-retain-le (keeps (now - older_than)) s.events in ground (arith, fewer)

find-remove_first :
    (i j k : ℕ) (es : List StoredEvent)
    → Rising k es
    → find (has_seq j) (remove_first (has_seq i) es)
      ≡ (if i == j then none else find (has_seq j) es)
unfolding remove_first
find-remove_first i j k [] r = ground arith
find-remove_first i j k (e ∷ es) r =
    ground (arith, find-remove_first i j (suc e.seq) es r.1, find_below (suc e.seq) j es r.1)

-- Purging a dead-lettered event of a valid store frees its number, changes no other, and keeps the
-- store valid.
pub purge-view :
    (i : ℕ) (e : StoredEvent) (s : MemoryStore)
    → IsValid s
    → view s i ≡ some e
    → e.status ≡ EventStatus.dead_lettered
    → ((purge_dead_lettered i s).0 ≡ ok tt)
      × ((j : ℕ) → view (purge_dead_lettered i s).1 j ≡ (if i == j then none else view s j))
      × IsValid (purge_dead_lettered i s).1
unfolding purge_dead_lettered
purge-view i e s v found dead =
    rw (found, purge_dead_lettered)
      (rw dead (
        refl,
        (λ j. find-remove_first i j 1 s.events v),
        Rising-remove_first (has_seq i) 1 s.events v,
      ))

-- A dead-lettered event is made pending under its number with no delivery records, and no other
-- number changes.
pub requeue-view :
    (i : ℕ) (e : StoredEvent) (s : MemoryStore)
    → view s i ≡ some e
    → e.status ≡ EventStatus.dead_lettered
    → ((requeue_dead_lettered i s).0 ≡ ok (requeued e))
      × ((j : ℕ)
          → view (requeue_dead_lettered i s).1 j ≡ (if i == j then some (requeued e) else view s j))
unfolding requeue_dead_lettered
requeue-view i e s found dead =
    rw (found, requeue_dead_lettered)
      (rw dead (
        refl,
        (λ j.
            find-modify_first i j requeued s.events (λ _. refl)
            ∙ ap (λ o. if i == j then on_some requeued o else view s j) found),
      ))

pub requeue-IsValid : (i : ℕ) (s : MemoryStore) → IsValid s → IsValid (requeue_dead_lettered i s).1
unfolding requeue_dead_lettered
requeue-IsValid i s v =
    ground (arith, Rising-modify_first (has_seq i) requeued (λ _. refl) 1 s.events v)

-- Requeue and purge refuse an event that is not dead-lettered, and leave the store as it was.
pub dead_letter_refused :
    (i : ℕ) (e : StoredEvent) (s : MemoryStore)
    → view s i ≡ some e
    → e.status ≢ EventStatus.dead_lettered
    → (requeue_dead_lettered i s ≡ (err (not_dead_lettered i), s))
      × (purge_dead_lettered i s ≡ (err (not_dead_lettered i), s))
unfolding requeue_dead_lettered purge_dead_lettered
dead_letter_refused i e s found alive =
    rw (found, requeue_dead_lettered, purge_dead_lettered)
      (rw (status_ne e.status EventStatus.dead_lettered alive) (refl, refl))

length_zero : {A : Type 0} (xs : List A) → length xs ≡ 0 → xs ≡ []
length_zero [] h = refl
length_zero (x ∷ xs) h = ground arith

-- After a compaction that removes every event, the next event gets the sequence number 1 again,
-- whatever the numbers before.
pub compact_restarts :
    (now older_than at_time : ℕ) (event : StoredEvent) (s : MemoryStore)
    → (compact now older_than s).0 ≡ ok (length s.events)
    → (append at_time event (compact now older_than s).1).0 ≡ ok 1
unfolding append next_seq
compact_restarts now older_than at_time event s all =
    let removed = compact_count now older_than (length s.events) s all in
    rw (length_zero (compact now older_than s).1.events (omega arith))
