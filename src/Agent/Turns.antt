-- ===== src/Agent/Turns.antt =====
-- The stored turn records and their stores, crates/core/seidrum-agent-runtime/src/lib.rs: `RuntimeStore`
-- with the laws that the runtime relies on, and `InMemoryTurnStore`, whose lock no thread poisons.
pub mod Memory
use seidrum.Base.{
  ℕ, suc, ◌%◌, if◌then◌else◌, Text, text_eq, Bool, List, [], ◌∷◌, ◌++◌, ◌≡◌, ◌⊎◌, arith,
}
use seidrum.Error.{Result, ok, err}
use seidrum.Store.{u64_mod, next_u64}
use seidrum.Agent.{RuntimeError}
use seidrum.Agent.Action.{Action}

pub data StoredTurnRecord (V : Type 0) : Type 0 where
  user_message : Text → ℕ → Text → Text → Text → StoredTurnRecord V
  assistant_tool_call : Text → ℕ → Text → Text → Text → Text → V → StoredTurnRecord V
  tool_result : Text → ℕ → Text → Text → Text → Text → Text → Bool → StoredTurnRecord V
  assistant_message : Text → ℕ → Text → Text → Text → StoredTurnRecord V

module _ {V : Type 0} where
  abbrev pub record_id : StoredTurnRecord V → Text
  record_id (user_message id q s a content) = id
  record_id (assistant_tool_call id q s a c tool args) = id
  record_id (tool_result id q s a c tool content is_error) = id
  record_id (assistant_message id q s a content) = id

  abbrev pub sequence : StoredTurnRecord V → ℕ
  sequence (user_message id q s a content) = q
  sequence (assistant_tool_call id q s a c tool args) = q
  sequence (tool_result id q s a c tool content is_error) = q
  sequence (assistant_message id q s a content) = q

  abbrev pub record_session : StoredTurnRecord V → Text
  record_session (user_message id q s a content) = s
  record_session (assistant_tool_call id q s a c tool args) = s
  record_session (tool_result id q s a c tool content is_error) = s
  record_session (assistant_message id q s a content) = s

  abbrev pub record_agent : StoredTurnRecord V → Text
  record_agent (user_message id q s a content) = a
  record_agent (assistant_tool_call id q s a c tool args) = a
  record_agent (tool_result id q s a c tool content is_error) = a
  record_agent (assistant_message id q s a content) = a

pub record RuntimeStore (V W : Type 0) : Type 0 where
  pub append : StoredTurnRecord V → Action W (Unit {0})
  pub records : Text → W → Result RuntimeError (List (StoredTurnRecord V))

-- `view w s` is what the store holds of the session `s`.
abbrev pub View : Type 0 → Type 0 → Type 0
View V W = W → Text → List (StoredTurnRecord V)

module _ {V W : Type 0} where
  -- The records of a session after `r` was stored.
  abbrev pub with_record : View V W → StoredTurnRecord V → View V W
  with_record view r w s = if text_eq (record_session r) s then view w s ++ r ∷ [] else view w s

  -- A call either does all of its work or reports an error and changes nothing.
  pub record StoreLaws (store : RuntimeStore V W) (view : View V W) : Type 0 where
    pub append_view :
        (r : StoredTurnRecord V) (w : W)
        → (((store.append r w).0 ≡ ok tt)
            × ((s : Text) → view (store.append r w).1 s ≡ with_record view r w s))
          ⊎ ((e : RuntimeError) × ((store.append r w).0 ≡ err e)
              × ((s : Text) → view (store.append r w).1 s ≡ view w s))
    pub records_view :
        (s : Text) (w : W)
        → (store.records s w ≡ ok (view w s)) ⊎ ((e : RuntimeError) × (store.records s w ≡ err e))

  -- An action that leaves every session as it is.
  abbrev pub Keeps : View V W → {A : Type 0} → (W → A × W) → Type 0
  Keeps view m = (w : W) (s : Text) → view (m w).1 s ≡ view w s

-- The record after `n` others of its session.
unfoldable pub sequence_after : ℕ → ℕ
unfolding next_u64
sequence_after n = next_u64 (n % u64_mod)

pub next_u64-sequence_after : (n : ℕ) → next_u64 (sequence_after n) ≡ sequence_after (suc n)
unfolding next_u64 sequence_after
next_u64-sequence_after n = omega arith
