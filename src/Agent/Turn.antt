-- ===== src/Agent/Turn.antt =====
-- `AgentRuntime` of crates/core/seidrum-agent-runtime/src/lib.rs: a turn of a session.
pub mod Progress
mod Writes
pub mod History
pub mod Trace
pub mod Replay
pub mod Rounds
pub mod Answers
use seidrum.Base.{
  ℕ, zero, suc, if◌then◌else◌, Text, codes, text_eq, true, Option, none, some, List, [], ◌∷◌, ◌++◌,
  length,
}
use seidrum.Error.{Result, ok, err}
use seidrum.Store.{next_u64}
use seidrum.Agent.{
  RuntimeError, tool, tool_not_registered, iteration_limit, to_string, TurnInput, ToolCall,
  ToolResult, RuntimeEvent, outbound_response, TurnOutput, ContextMessage, ProviderRequest,
  ProviderResponse, RuntimeConfig, ChannelTurnInput,
}
use seidrum.Agent as Data
use seidrum.Agent.Action.{Action, ◌>>=◌, ◌>>◌, return, fail, reading, calling}
use seidrum.Agent.Turns.{
  StoredTurnRecord, user_message, assistant_tool_call, tool_result, assistant_message, RuntimeStore,
  sequence_after,
}

module _ (V W : Type 0) where
  abbrev pub ToolExecutor : Type 0
  ToolExecutor = ToolCall V → Action W ToolResult

module _ {V W : Type 0} where
  -- `HashMap::get` on the registered tools, the latest first.
  abbrev pub get_tool : List (Text × ToolExecutor V W) → Text → Option (ToolExecutor V W)
  get_tool [] name = none
  get_tool ((k, t) ∷ tools) name = if text_eq k name then some t else get_tool tools name

-- The runtime with its provider and store; `new_record_id` makes a ULID.
pub record AgentRuntime (V W : Type 0) : Type 0 where
  pub complete : ProviderRequest → Action W (ProviderResponse V)
  pub store : RuntimeStore V W
  pub tools : List (Text × ToolExecutor V W)
  pub config : RuntimeConfig
  pub new_record_id : W → Text × W

module _ {V : Type 0} where
  abbrev failed_result : ToolCall V → Text → ToolResult
  failed_result call message = record {
    call_id = call.id;
    tool_name = call.name;
    content = message;
    is_error = true;
  }

  abbrev pub tool_outcome : ToolCall V → Result RuntimeError ToolResult → ToolResult
  tool_outcome call (ok result) = result
  tool_outcome call (err (tool name message)) = failed_result call message
  tool_outcome call (err e) = failed_result call (to_string e)

module _ {V W : Type 0} where
  abbrev pub with_tool : AgentRuntime V W → Text → ToolExecutor V W → AgentRuntime V W
  with_tool rt name t = record rt { tools = (name, t) ∷ rt.tools }

  abbrev pub run_tool : Option (ToolExecutor V W) → ToolCall V → W → ToolResult × W
  run_tool none call w = (failed_result call (to_string (tool_not_registered call.name)), w)
  run_tool (some t) call w = let (r, w') = t call w in (tool_outcome call r, w')

-- The records of a turn, under a number and an id.
module _ {V : Type 0} (input : TurnInput) where
  abbrev pub call_record : ℕ → ToolCall V → Text → StoredTurnRecord V
  call_record q call id =
      assistant_tool_call id q input.session_id input.agent_id call.id call.name call.arguments

  abbrev pub result_record : ℕ → ToolResult → Text → StoredTurnRecord V
  result_record q r id =
      tool_result id q input.session_id input.agent_id r.call_id r.tool_name r.content r.is_error

  abbrev pub answer_record : ℕ → Text → Text → StoredTurnRecord V
  answer_record q text id = assistant_message id q input.session_id input.agent_id text

  abbrev pub message_record : ℕ → Text → StoredTurnRecord V
  message_record q id = user_message id q input.session_id input.agent_id input.user_message

module _ (input : TurnInput) where
  abbrev pub request : List ToolResult → ProviderRequest
  request results = record {
    session_id = input.session_id;
    agent_id = input.agent_id;
    messages = record { role = codes "user"; content = input.user_message } ∷ [];
    tool_results = results;
  }

  abbrev pub output : Text → List ToolResult → TurnOutput
  output text results = record {
    session_id = input.session_id;
    agent_id = input.agent_id;
    final_text = text;
    events = outbound_response input.session_id input.agent_id text ∷ [];
    tool_results = results;
  }

module _ {V W : Type 0} (rt : AgentRuntime V W) where
  unfoldable pub execute_tool : ToolCall V → W → ToolResult × W
  execute_tool call = run_tool (get_tool rt.tools call.name) call

  unfoldable pub next_sequence : Text → Action W ℕ
  next_sequence s = do rs ← reading (rt.store.records s); return (sequence_after (length rs))

  module _ (input : TurnInput) where
    -- `store.append` of a record with a new id.
    unfoldable pub append_new : (Text → StoredTurnRecord V) → Action W (Unit {0})
    append_new make = do id ← calling rt.new_record_id; rt.store.append (make id)

    -- The loop over the tool calls of a response.
    unfoldable pub run_calls :
        List (ToolCall V) → ℕ → List ToolResult → Action W (ℕ × List ToolResult)
    run_calls [] q results = return (q, results)
    run_calls (call ∷ calls) q results = do
      append_new (call_record input q call)
      result ← calling (execute_tool call)
      append_new (result_record input (next_u64 q) result)
      run_calls calls (next_u64 (next_u64 q)) (results ++ result ∷ [])

    abbrev pub answer : ℕ → List ToolResult → Text → Action W TurnOutput
    answer q results text = do
      append_new (answer_record input q text)
      return (output input text results)

    -- What follows a response in the loop `for _ in 0..max_tool_iterations`.
    abbrev pub respond :
        (ℕ → List ToolResult → Action W TurnOutput)
        → ℕ
        → List ToolResult
        → List (ToolCall V)
        → Option Text
        → Action W TurnOutput
    respond continue q results calls (some text) = answer q results text
    respond continue q results calls none = do
      next ← run_calls calls q results
      continue next.0 next.1

    unfoldable pub run_rounds : ℕ → ℕ → List ToolResult → Action W TurnOutput
    run_rounds zero q results = fail (iteration_limit rt.config.max_tool_iterations)
    run_rounds (suc rounds) q results = do
      response ← rt.complete (request input results)
      respond (run_rounds rounds) q results response.tool_calls response.final_text

    unfoldable pub run_turn : Action W TurnOutput
    run_turn = do
      q ← next_sequence input.session_id
      append_new (message_record input q)
      run_rounds rt.config.max_tool_iterations (next_u64 q) []

  unfoldable pub run_channel_turn : ChannelTurnInput → Action W TurnOutput
  run_channel_turn input = run_turn (record {
    session_id = Data.session_id input.origin;
    agent_id = input.agent_id;
    user_message = input.user_message;
  })
