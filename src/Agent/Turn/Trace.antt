-- ===== src/Agent/Turn/Trace.antt =====
-- `replay_session_trace`, `replay_agent_session_trace` and `build_trace` of
-- crates/core/seidrum-agent-runtime/src/lib.rs, and what the records of a session tell.
use seidrum.Base.{
  ℕ, suc, ◌+◌, Text, text_eq, List, [], ◌∷◌, ◌++◌, length, retain, ◌≡◌, ◌∙◌, ap, arith, filter_map,
  Option, some, none,
}
use seidrum.Error.{Result, ok, ◌>>=◌}
use seidrum.Agent.{RuntimeError, ToolResult, RuntimeEvent, outbound_response}
use seidrum.Agent.Turns.{
  StoredTurnRecord, tool_result, assistant_message, sequence, record_agent, RuntimeStore,
  sequence_after,
}

pub record RuntimeTrace (V : Type 0) : Type 0 where
  pub session_id : Text
  pub agent_id : Text
  pub records : List (StoredTurnRecord V)
  pub outbound_events : List RuntimeEvent

module _ {V : Type 0} where
  -- What `build_trace` takes of a record.
  abbrev pub outbound_event : StoredTurnRecord V → Option RuntimeEvent
  outbound_event (assistant_message id q s a content) = some (outbound_response s a content)
  outbound_event _ = none

  abbrev pub build_trace : Text → Text → List (StoredTurnRecord V) → RuntimeTrace V
  build_trace s agent rs = record {
    session_id = s;
    agent_id = agent;
    records = rs;
    outbound_events = filter_map outbound_event rs;
  }

  -- `records.first().map(agent_id).unwrap_or_default()`.
  abbrev pub first_agent : List (StoredTurnRecord V) → Text
  first_agent [] = []
  first_agent (r ∷ rs) = record_agent r

module _ {V W : Type 0} (store : RuntimeStore V W) where
  unfoldable pub replay_session_trace : Text → W → Result RuntimeError (RuntimeTrace V)
  replay_session_trace s w = do rs ← store.records s w; ok (build_trace s (first_agent rs) rs)

  unfoldable pub replay_agent_session_trace : Text → Text → W → Result RuntimeError (RuntimeTrace V)
  replay_agent_session_trace s agent w = do
    rs ← store.records s w
    ok (build_trace s agent (retain (λ r. text_eq (record_agent r) agent) rs))

module _ {V : Type 0} where
  -- The result that a record holds.
  abbrev pub stored_result : StoredTurnRecord V → Option ToolResult
  stored_result (tool_result id q s a c tool content is_error) =
      some (record { call_id = c; tool_name = tool; content = content; is_error = is_error })
  stored_result _ = none

  -- The records from the `k`th on are numbered by their place.
  abbrev pub NumberedFrom : ℕ → List (StoredTurnRecord V) → Type 0
  NumberedFrom k [] = Unit
  NumberedFrom k (r ∷ rs) = (sequence r ≡ sequence_after k) × NumberedFrom (suc k) rs

  abbrev pub IsNumbered : List (StoredTurnRecord V) → Type 0
  IsNumbered = NumberedFrom 0

  NumberedFrom-append :
      (k : ℕ) (xs : List (StoredTurnRecord V)) (r : StoredTurnRecord V)
      → sequence r ≡ sequence_after (k + length xs)
      → NumberedFrom k xs
      → NumberedFrom k (xs ++ r ∷ [])
  NumberedFrom-append k [] r h n = (h ∙ ap sequence_after (omega arith), tt)
  NumberedFrom-append k (x ∷ xs) r h n =
      (n.0, NumberedFrom-append (suc k) xs r (h ∙ ap sequence_after (omega arith)) n.1)

  pub IsNumbered-append :
      (xs : List (StoredTurnRecord V)) (r : StoredTurnRecord V)
      → sequence r ≡ sequence_after (length xs)
      → IsNumbered xs
      → IsNumbered (xs ++ r ∷ [])
  IsNumbered-append xs r h = NumberedFrom-append 0 xs r (h ∙ ap sequence_after (omega arith))
