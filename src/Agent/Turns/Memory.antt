-- ===== src/Agent/Turns/Memory.antt =====
-- `InMemoryTurnStore` of crates/core/seidrum-agent-runtime/src/lib.rs, in a world `E` of other things.
use seidrum.Base.{
  if◌then◌else◌, Text, text_eq, text_eq→eq, text_eq_refl, List, [], ◌∷◌, ◌++◌, ◌≡◌, refl, inl,
  arith,
}
use seidrum.Error.{ok}
use seidrum.Agent.Action.{Action}
use seidrum.Agent.Turns.{StoredTurnRecord, record_session, RuntimeStore, StoreLaws, View}

-- `records_by_session`.
abbrev pub InMemoryTurnStore : Type 0 → Type 0
InMemoryTurnStore V = List (Text × List (StoredTurnRecord V))

module _ {V : Type 0} where
  -- `get(session_id).cloned().unwrap_or_default()`.
  unfoldable pub get_records : InMemoryTurnStore V → Text → List (StoredTurnRecord V)
  get_records [] s = []
  get_records ((k, rs) ∷ m) s = if text_eq k s then rs else get_records m s

  -- `entry(session_id).or_default().push(record)`.
  unfoldable pub push_record : InMemoryTurnStore V → Text → StoredTurnRecord V → InMemoryTurnStore V
  push_record [] s r = (s, r ∷ []) ∷ []
  push_record ((k, rs) ∷ m) s r =
      if text_eq k s then (k, rs ++ r ∷ []) ∷ m else (k, rs) ∷ push_record m s r

  get_records-push_record :
      (m : InMemoryTurnStore V) (s : Text) (r : StoredTurnRecord V) (j : Text)
      → get_records (push_record m s r) j
        ≡ (if text_eq s j then get_records m j ++ r ∷ [] else get_records m j)
  unfolding get_records push_record
  get_records-push_record [] s r j = refl
  get_records-push_record ((k, rs) ∷ m) s r j = ground (
    arith,
    get_records-push_record m s r j,
    text_eq→eq k s,
    text_eq→eq s j,
    text_eq→eq k j,
    text_eq_refl s,
    text_eq_refl j,
  )

module _ {V E : Type 0} where
  abbrev pub memory_view : View V (InMemoryTurnStore V × E)
  memory_view w s = get_records w.0 s

  abbrev append_memory : StoredTurnRecord V → Action (InMemoryTurnStore V × E) (Unit {0})
  append_memory r w = (ok tt, (push_record w.0 (record_session r) r, w.1))

  abbrev pub memory_turns : RuntimeStore V (InMemoryTurnStore V × E)
  memory_turns = record { append = append_memory; records = λ s w. ok (get_records w.0 s) }

  -- The in-memory turn store implements the store that the runtime relies on: a record is added at
  -- the end of its session, and no other session changes.
  pub memory_turns-StoreLaws : StoreLaws memory_turns memory_view
  memory_turns-StoreLaws = record {
    append_view = λ r w. inl (refl, get_records-push_record w.0 (record_session r) r);
    records_view = λ s w. inl refl;
  }
