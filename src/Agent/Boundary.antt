-- ===== src/Agent/Boundary.antt =====
-- The adapters of crates/core/seidrum-agent-runtime/src/lib.rs (`boundaries`) to the LLM router and the
-- tool dispatcher, and the messages of crates/core/seidrum-common/src/events.rs that they use. JSON text,
-- floating-point numbers and tool schemas are parameters.
pub mod Calls
use seidrum.Base.{
  ℕ, Text, codes, Bool, true, false, Option, none, some, List, [], ◌∷◌, ◌++◌, map, ◌≡◌, refl, sym,
  subst, ap, Option-cases, inl, inr,
}
use seidrum.Error.{Result, ok, err, ◌>>=◌}
use seidrum.Agent.{
  RuntimeError, provider, tool, ToolCall, ToolResult, ContextMessage, ProviderRequest,
  ProviderResponse,
}
use seidrum.Agent.Action.{Action}
use seidrum.Agent.Turn.{AgentRuntime, ToolExecutor, get_tool, run_tool, execute_tool, tool_outcome}

pub record UnifiedToolResult : Type 0 where
  pub tool_call_id : Text
  pub content : Text
  pub is_error : Bool

pub record UnifiedToolCall (V : Type 0) : Type 0 where
  pub id : Text
  pub name : Text
  pub arguments : V

pub record UnifiedMessage (V : Type 0) : Type 0 where
  pub role : Text
  pub content : Option Text
  pub tool_calls : Option (List (UnifiedToolCall V))
  pub tool_results : Option (List UnifiedToolResult)

pub record LlmCallConfig (F : Type 0) : Type 0 where
  pub temperature : Option F
  pub max_tokens : Option ℕ
  pub top_p : Option F

pub record UnifiedLlmRequest (V F S : Type 0) : Type 0 where
  pub agent_id : Text
  pub messages : List (UnifiedMessage V)
  pub system_prompt : Option Text
  pub tools : List S
  pub config : LlmCallConfig F
  pub routing_strategy : Text
  pub model_preferences : List Text
  pub correlation_id : Option Text
  pub scope : Option Text
  pub user_id : Option Text

pub record ToolCallRequest (V : Type 0) : Type 0 where
  pub tool_id : Text
  pub plugin_id : Text
  pub arguments : V
  pub correlation_id : Option Text

pub record ToolCallResponse (V : Type 0) : Type 0 where
  pub tool_id : Text
  pub result : V
  pub is_error : Bool

-- A call in the answer of the router, its arguments in JSON text.
pub record LlmToolCall : Type 0 where
  pub id : Text
  pub function_name : Text
  pub arguments : Text

-- What the adapter reads of an `LlmResponse`.
pub record LlmResponse : Type 0 where
  pub content : Option Text
  pub tool_calls : Option (List LlmToolCall)

-- serde_json: the text in a string, a value as text, and the value of a text or what is wrong with it.
pub record JsonText (V : Type 0) : Type 0 where
  pub as_string : V → Option Text
  pub print : V → Text
  pub from_str : Text → Result Text V

module _ {V : Type 0} where
  abbrev plain_message : ContextMessage → UnifiedMessage V
  plain_message m = record {
    role = m.role;
    content = some m.content;
    tool_calls = none;
    tool_results = none;
  }

  abbrev result_message : ToolResult → UnifiedMessage V
  result_message r = record {
    role = codes "tool";
    content = some r.content;
    tool_calls = none;
    tool_results =
        some (record { tool_call_id = r.call_id; content = r.content; is_error = r.is_error } ∷ []);
  }

  abbrev pub tool_call_to_dispatch_request : ToolCall V → ToolCallRequest V
  tool_call_to_dispatch_request call = record {
    tool_id = call.name;
    plugin_id = [];
    arguments = call.arguments;
    correlation_id = some call.id;
  }

module _ {V F S : Type 0} where
  unfoldable pub provider_request_to_unified_llm_request : ProviderRequest → UnifiedLlmRequest V F S
  provider_request_to_unified_llm_request r = record {
    agent_id = r.agent_id;
    messages = map plain_message r.messages ++ map result_message r.tool_results;
    system_prompt = none;
    tools = [];
    config = record { temperature = none; max_tokens = none; top_p = none };
    routing_strategy = codes "runtime-boundary";
    model_preferences = [];
    correlation_id = some r.session_id;
    scope = none;
    user_id = none;
  }

module _ {V : Type 0} (js : JsonText V) where
  abbrev pub or_printed : V → Option Text → Text
  or_printed v none = js.print v
  or_printed v (some text) = text

  abbrev pub result_content_to_string : V → Text
  result_content_to_string v = or_printed v (js.as_string v)

  abbrev pub dispatched :
      ToolCall V → Result Text (ToolCallResponse V) → Result RuntimeError ToolResult
  dispatched call (ok response) = ok (record {
    call_id = call.id;
    tool_name = call.name;
    content = result_content_to_string response.result;
    is_error = response.is_error;
  })
  dispatched call (err e) = err (tool call.name (codes "tool dispatch boundary failed: " ++ e))

  abbrev parsed : Text → Result Text V → Result RuntimeError V
  parsed id (ok v) = ok v
  parsed id (err e) =
      err (provider (codes "invalid tool arguments for call `" ++ id ++ codes "`: " ++ e))

  unfoldable pub convert_calls : List LlmToolCall → Result RuntimeError (List (ToolCall V))
  convert_calls [] = ok []
  convert_calls (call ∷ calls) = do
    arguments ← parsed call.id (js.from_str call.arguments)
    rest ← convert_calls calls
    ok (record { id = call.id; name = call.function_name; arguments = arguments } ∷ rest)

  abbrev or_no_calls : Option (List LlmToolCall) → List LlmToolCall
  or_no_calls none = []
  or_no_calls (some calls) = calls

  unfoldable pub try_from : LlmResponse → Result RuntimeError (ProviderResponse V)
  try_from response = do
    calls ← convert_calls (or_no_calls response.tool_calls)
    ok (record { final_text = response.content; tool_calls = calls })

  abbrev pub routed : Result Text LlmResponse → Result RuntimeError (ProviderResponse V)
  routed (ok response) = try_from response
  routed (err e) = err (provider (codes "llm router boundary failed: " ++ e))

module _ {V W : Type 0} (js : JsonText V) where
  -- `ToolDispatchExecutor`.
  unfoldable pub execute_dispatch :
      (ToolCallRequest V → W → Result Text (ToolCallResponse V) × W) → ToolExecutor V W
  execute_dispatch call_tool call w =
      let (r, w') = call_tool (tool_call_to_dispatch_request call) w in (dispatched js call r, w')

  -- `LlmRouterProvider`.
  unfoldable pub complete_routed :
      {F S : Type 0}
      → (UnifiedLlmRequest V F S → W → Result Text LlmResponse × W)
      → ProviderRequest
      → Action W (ProviderResponse V)
  complete_routed complete_unified r w =
      let (o, w') = complete_unified (provider_request_to_unified_llm_request r) w in
      (routed js o, w')
