-- ===== src/Store/Memory/Seq.antt =====
-- The sequence numbers that storage/memory_store.rs assigns.
use seidrum.Base.{
  ℕ, suc, ◌≤◌, ◌<◌, retain, find, Bool-cases, inl, inr, Bool, none, List, [], ◌∷◌, ◌++◌, ◌≡◌, refl,
  arith,
}
use seidrum.Store.{StoredEvent, u64_mod, next_u64}
use seidrum.Store.Memory.{next_seq, has_seq, modify_first, remove_first}

-- The numbers rise from `k`.
abbrev pub Rising : ℕ → List StoredEvent → Type 0
Rising k [] = Unit
Rising k (e ∷ es) = (k ≤ e.seq) × Rising (suc e.seq) es

-- One past the last number, or `k` where there is none.
abbrev pub past : ℕ → List StoredEvent → ℕ
past k [] = k
past k (e ∷ es) = past (suc e.seq) es

past_last :
    (k l : ℕ) (e : StoredEvent) (es : List StoredEvent)
    → past k (e ∷ es) < u64_mod
    → next_seq (e ∷ es) ≡ past l (e ∷ es)
unfolding next_seq next_u64
past_last k l e [] h = omega arith
past_last k l e (f ∷ es) h = past_last k (suc e.seq) f es h

-- While the numbers fit 64 bits the next number does not wrap.
pub next_seq-past : (es : List StoredEvent) → past 1 es < u64_mod → next_seq es ≡ past 1 es
unfolding next_seq
next_seq-past [] h = refl
next_seq-past (e ∷ es) h = past_last 1 1 e es h

le-past : (k : ℕ) (es : List StoredEvent) → Rising k es → k ≤ past k es
le-past k [] r = omega arith
le-past k (e ∷ es) r = omega (arith, le-past (suc e.seq) es r.1)

pub Rising-append :
    (k : ℕ) (es : List StoredEvent) (e : StoredEvent)
    → Rising k es
    → past k es ≤ e.seq
    → Rising k (es ++ e ∷ [])
Rising-append k [] e r h = (h, tt)
Rising-append k (d ∷ es) e r h = (r.0, Rising-append (suc d.seq) es e r.1 h)

pub Rising-mono : (j k : ℕ) (es : List StoredEvent) → j ≤ k → Rising k es → Rising j es
Rising-mono j k [] h r = tt
Rising-mono j k (e ∷ es) h r = (omega arith, r.1)

pub Rising-retain :
    (p : StoredEvent → Bool) (k : ℕ) (es : List StoredEvent) → Rising k es → Rising k (retain p es)
Rising-retain p k [] r = tt
Rising-retain p k (e ∷ es) r = elim (Bool-cases (p e)) [
  | inl kept ↦ rw kept (r.0, Rising-retain p (suc e.seq) es r.1)
  | inr gone ↦
      rw gone
        (Rising-mono k (suc e.seq) (retain p es) (omega arith) (Rising-retain p (suc e.seq) es r.1))
]

pub Rising-remove_first :
    (p : StoredEvent → Bool) (k : ℕ) (es : List StoredEvent)
    → Rising k es
    → Rising k (remove_first p es)
unfolding remove_first
Rising-remove_first p k [] r = tt
Rising-remove_first p k (e ∷ es) r = elim (Bool-cases (p e)) [
  | inl gone ↦ rw gone (Rising-mono k (suc e.seq) es (omega arith) r.1)
  | inr kept ↦ rw kept (r.0, Rising-remove_first p (suc e.seq) es r.1)
]

-- A change that keeps the number keeps the order.
pub Rising-modify_first :
    (p : StoredEvent → Bool) (f : StoredEvent → StoredEvent)
    → ((e : StoredEvent) → (f e).seq ≡ e.seq)
    → (k : ℕ) (es : List StoredEvent) → Rising k es
    → Rising k (modify_first p f es)
unfolding modify_first
Rising-modify_first p f same k [] r = tt
Rising-modify_first p f same k (e ∷ es) r = elim (Bool-cases (p e)) [
  | inl hit ↦ rw (hit, same e) r
  | inr miss ↦ rw miss (r.0, Rising-modify_first p f same (suc e.seq) es r.1)
]

-- No event has a number past the last, or below the first.
pub find-past :
    (k q : ℕ) (es : List StoredEvent) → Rising k es → past k es ≤ q → find (has_seq q) es ≡ none
find-past k q [] r h = refl
find-past k q (e ∷ es) r h =
    ground (arith, find-past (suc e.seq) q es r.1, le-past (suc e.seq) es r.1)

pub find_below :
    (k q : ℕ) (es : List StoredEvent) → Rising k es → q < k → find (has_seq q) es ≡ none
find_below k q [] r h = refl
find_below k q (e ∷ es) r h = ground (arith, find_below (suc e.seq) q es r.1)
