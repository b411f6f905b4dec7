-- ===== src/Agent/Turn/Progress.antt =====
-- How a turn of crates/core/seidrum-agent-runtime/src/lib.rs may change the store: a relation that grows
-- the history of the session record by record, in the order of `run_turn`.
use seidrum.Base.{
  ℕ, Text, text_eq, false, some, List, [], ◌∷◌, ◌++◌, length, ◌≡◌, ◌∙◌, arith, ap, length-append,
}
use seidrum.Store.{next_u64}
use seidrum.Error.{Result, ok, err}
use seidrum.Agent.{RuntimeError, TurnInput, ToolCall, ToolResult, ProviderRequest, TurnOutput}
use seidrum.Agent.Turns.{
  StoredTurnRecord, record_session, View, Keeps, sequence_after, next_u64-sequence_after,
}
use seidrum.Agent.Turn.{
  AgentRuntime, ToolExecutor, get_tool, call_record, result_record, answer_record, message_record,
  output,
}

-- How far a turn is: with these tool results, within this call, or with this answer.
pub data Phase (V : Type 0) : Type 0 where
  untouched : Phase V
  thinking : List ToolResult → Phase V
  in_call : ToolCall V → List ToolResult → Phase V
  answered : Text → List ToolResult → Phase V

module _ {V : Type 0} where
  abbrev pub IsStopped : Phase V → Type 0
  IsStopped (answered text results) = ⊥
  IsStopped _ = Unit

  -- The next number of a session.
  abbrev pub next : List (StoredTurnRecord V) → ℕ
  next xs = sequence_after (length xs)

module _ {V : Type 0} where
  pub next-append :
      (xs : List (StoredTurnRecord V)) (r : StoredTurnRecord V)
      → next_u64 (next xs) ≡ next (xs ++ r ∷ [])
  next-append xs r =
      next_u64-sequence_after (length xs)
      ∙ ap sequence_after (omega (arith, length-append xs (r ∷ [])))

module _ {V : Type 0} (input : TurnInput) (before : List (StoredTurnRecord V)) where
  -- The histories of a session in a turn on `input`, each record under the next number.
  pub data History : Phase V → List (StoredTurnRecord V) → Type 0 where
    not_yet : History untouched before
    begin :
        (id : Text) → History (thinking []) (before ++ message_record input (next before) id ∷ [])
    call :
        {results : List ToolResult} {xs : List (StoredTurnRecord V)} (c : ToolCall V) (id : Text)
        → History (thinking results) xs
        → History (in_call c results) (xs ++ call_record input (next xs) c id ∷ [])
    result :
        {results : List ToolResult} {xs : List (StoredTurnRecord V)} {c : ToolCall V}
        (r : ToolResult) (id : Text)
        → History (in_call c results) xs
        → History (thinking (results ++ r ∷ [])) (xs ++ result_record input (next xs) r id ∷ [])
    reply :
        {results : List ToolResult} {xs : List (StoredTurnRecord V)} (text id : Text)
        → History (thinking results) xs
        → History (answered text results) (xs ++ answer_record input (next xs) text id ∷ [])

module _ {V W : Type 0} where
  -- The provider, the tools and the ids leave the turn records alone.
  pub record Frame (rt : AgentRuntime V W) (view : View V W) : Type 0 where
    pub complete_keeps : (r : ProviderRequest) → Keeps view (rt.complete r)
    pub tool_keeps :
        (name : Text) (t : ToolExecutor V W) (c : ToolCall V)
        → get_tool rt.tools name ≡ some t
        → Keeps view (t c)
    pub id_keeps : Keeps view rt.new_record_id

module _ {V W : Type 0} (view : View V W) (input : TurnInput) where
  abbrev pub session : W → List (StoredTurnRecord V)
  session w = view w input.session_id

  -- The other sessions are as they were.
  abbrev pub Others : W → W → Type 0
  Others w0 w = (s : Text) → text_eq input.session_id s ≡ false → view w s ≡ view w0 s

  abbrev pub Wrote : (Text → StoredTurnRecord V) → W → Result RuntimeError (Unit {0}) × W → Type 0
  Wrote make w (ok u, w') = ((id : Text) × (session w' ≡ session w ++ make id ∷ [])) × Others w w'
  Wrote make w (err e, w') = (s : Text) → view w' s ≡ view w s

  abbrev pub OfSession : (Text → StoredTurnRecord V) → Type 0
  OfSession make = (id : Text) → record_session (make id) ≡ input.session_id

  module _ (w0 : W) where
    abbrev pub State : Phase V → W → Type 0
    State p w = History input (session w0) p (session w) × Others w0 w

    abbrev pub Stopped : W → Type 0
    Stopped w = (p : Phase V) × IsStopped p × State p w

    -- A turn that succeeds ends with its answer, one that fails does not.
    abbrev pub Ended : Result RuntimeError TurnOutput × W → Type 0
    Ended (ok out, w) =
        (text : Text) × (results : List ToolResult) × (out ≡ output input text results)
        × State (answered text results) w
    Ended (err e, w) = Stopped w
