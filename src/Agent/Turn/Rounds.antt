-- ===== src/Agent/Turn/Rounds.antt =====
-- The rounds of `run_turn` of crates/core/seidrum-agent-runtime/src/lib.rs: how often a turn asks the
-- provider, and that a provider which comes to an answer in time gets it through.
use seidrum.Base.{
  ℕ, zero, suc, ◌+◌, ◌≤◌, Text, Option, none, some, List, [], ◌∷◌, ◌++◌, ◌≡◌, refl, subst, arith,
}
use seidrum.Error.{Result}
use seidrum.Store.{next_u64}
use seidrum.Agent.{RuntimeError, TurnInput, ToolCall, ToolResult, TurnOutput, ProviderRequest}
use seidrum.Agent.Action.{Action, bind-rule, ◌>>=◌, reading}
use seidrum.Agent.Turns.{StoredTurnRecord}
use seidrum.Agent.Turn.{
  AgentRuntime, ToolExecutor, get_tool, run_tool, execute_tool, next_sequence, append_new,
  call_record, result_record, answer_record, message_record, run_calls, request, respond,
  run_rounds, run_turn,
}

module _ {V W : Type 0} (rt : AgentRuntime V W) (meter : W → ℕ) where
  -- A measure of the world that ids, the store and the tools do not raise.
  pub record Calm : Type 0 where
    pub id_calm : (w : W) → meter (rt.new_record_id w).1 ≤ meter w
    pub append_calm : (r : StoredTurnRecord V) (w : W) → meter (rt.store.append r w).1 ≤ meter w
    pub tool_calm :
        (name : Text) (t : ToolExecutor V W) (c : ToolCall V) (w : W)
        → get_tool rt.tools name ≡ some t
        → meter (t c w).1 ≤ meter w

module _ {V W : Type 0} (rt : AgentRuntime V W) (meter : W → ℕ) (calm : Calm rt meter) where
  run_tool_calm :
      (t : Option (ToolExecutor V W)) (c : ToolCall V) (w : W)
      → ((e : ToolExecutor V W) → t ≡ some e → meter (e c w).1 ≤ meter w)
      → meter (run_tool t c w).1 ≤ meter w
  run_tool_calm none c w h = omega arith
  run_tool_calm (some e) c w h = h e refl

  pub execute_tool_calm : (c : ToolCall V) (w : W) → meter (execute_tool rt c w).1 ≤ meter w
  unfolding execute_tool
  execute_tool_calm c w =
      run_tool_calm (get_tool rt.tools c.name) c w (λ e h. calm.tool_calm c.name e c w h)

  module _ (input : TurnInput) where
    pub append_new_calm :
        (make : Text → StoredTurnRecord V) (w : W) → meter (append_new rt input make w).1 ≤ meter w
    unfolding append_new
    append_new_calm make w =
        let (id, w1) = rt.new_record_id w in
        omega (arith, calm.id_calm w, calm.append_calm (make id) w1)

    -- The bound `n` holds at the end.
    abbrev Within : {A : Type 0} → ℕ → Result RuntimeError A × W → Type 0
    Within n o = meter o.1 ≤ n

    bind-Within :
        {A B : Type 0} (k n : ℕ) (m : Action W A) (f : A → Action W B) (w : W)
        → k ≤ n
        → meter (m w).1 ≤ k
        → ((a : A) (w' : W) → meter w' ≤ k → meter (f a w').1 ≤ n)
        → Within n ((m >>= f) w)
    bind-Within k n m f w under h next =
        bind-rule (Within n) m f w (λ a w' did. next a w' (subst (Within k) did h))
          (λ e w' did. omega (arith, subst (Within k) did h))

    run_calls_within :
        (calls : List (ToolCall V)) (q : ℕ) (results : List ToolResult) (n : ℕ) (w : W)
        → meter w ≤ n
        → meter (run_calls rt input calls q results w).1 ≤ n
    unfolding run_calls
    run_calls_within [] q results n w h = h
    run_calls_within (c ∷ calls) q results n w h =
        bind-Within n n (append_new rt input (call_record input q c)) _ w (omega arith)
          (omega (arith, append_new_calm (call_record input q c) w))
          (λ u w1 h1.
            let (r, w2) = execute_tool rt c w1 in
            bind-Within n n (append_new rt input (result_record input (next_u64 q) r)) _ w2
              (omega arith)
              (omega (
                arith,
                append_new_calm (result_record input (next_u64 q) r) w2,
                execute_tool_calm c w1,
              ))
              (λ u' w3 h3.
                run_calls_within calls (next_u64 (next_u64 q)) (results ++ r ∷ []) n w3 h3))

    respond_within :
        (continue : ℕ → List ToolResult → Action W TurnOutput) (k n : ℕ)
        → k ≤ n
        → ((q : ℕ) (results : List ToolResult) (w : W)
            → meter w ≤ k
            → meter (continue q results w).1 ≤ n)
        → (q : ℕ) (results : List ToolResult) (calls : List (ToolCall V)) (text : Option Text)
          (w : W)
        → meter w ≤ k
        → meter (respond rt input continue q results calls text w).1 ≤ n
    respond_within continue k n under ends q results calls (some text) w h =
        bind-Within k n (append_new rt input (answer_record input q text)) _ w under
          (omega (arith, append_new_calm (answer_record input q text) w)) (λ u w1 h1. omega arith)
    respond_within continue k n under ends q results calls none w h =
        bind-Within k n (run_calls rt input calls q results) _ w under
          (run_calls_within calls q results k w h) (λ next w1 h1. ends next.0 next.1 w1 h1)

    module _
        (asks : (r : ProviderRequest) (w : W) → meter (rt.complete r w).1 ≤ suc (meter w)) where
      run_rounds_within :
          (rounds q : ℕ) (results : List ToolResult) (n : ℕ) (w : W)
          → meter w + rounds ≤ n
          → meter (run_rounds rt input rounds q results w).1 ≤ n
      unfolding run_rounds
      run_rounds_within zero q results n w h = omega arith
      run_rounds_within (suc rounds) q results n w h =
          bind-Within (suc (meter w)) n (rt.complete (request input results)) _ w (omega arith)
            (asks (request input results) w)
            (λ response w' h'.
              respond_within (run_rounds rt input rounds) (suc (meter w)) n (omega arith)
                (λ q' results' w2 h2. run_rounds_within rounds q' results' n w2 (omega arith)) q
                results response.tool_calls response.final_text w' h')

      next_sequence_still : (s : Text) (w : W) → meter (next_sequence rt s w).1 ≤ meter w
      unfolding next_sequence
      next_sequence_still s w =
          bind-Within (meter w) (meter w) (reading (rt.store.records s)) _ w (omega arith)
            (omega arith) (λ rs w' h. h)

      -- A turn asks the provider at most as often as the limit of iterations: a count that a call
      -- of the provider raises by at most one, and that ids, the store and the tools do not raise,
      -- grows by at most the limit.
      pub run_turn_within :
          (w : W) → meter (run_turn rt input w).1 ≤ meter w + rt.config.max_tool_iterations
      unfolding run_turn
      run_turn_within w =
          let n = meter w + rt.config.max_tool_iterations in
          bind-Within (meter w) n (next_sequence rt input.session_id) _ w (omega arith)
            (next_sequence_still input.session_id w)
            (λ q w1 h1.
              bind-Within (meter w) n (append_new rt input (message_record input q)) _ w1
                (omega arith) (omega (arith, append_new_calm (message_record input q) w1))
                (λ u w2 h2.
                  run_rounds_within rt.config.max_tool_iterations (next_u64 q) [] n w2
                    (omega arith)))
