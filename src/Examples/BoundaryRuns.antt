-- ===== src/Examples/BoundaryRuns.antt =====
-- The adapters of the agent runtime at concrete inputs.
use seidrum.Agent.Turns.{StoredTurnRecord}
use seidrum.Base.{ℕ, Text, codes, false, none, some, List, [], ◌∷◌, ◌≡◌, refl}
use seidrum.Error.{Result, ok, err}
use seidrum.Agent.{ToolCall, default_config, provider}
use seidrum.Agent.Turns.Memory.{memory_turns}
use seidrum.Agent.Turn.{AgentRuntime}
use seidrum.Agent.Boundary.{
  JsonText, LlmResponse, ToolCallRequest, ToolCallResponse, execute_dispatch, complete_routed,
  try_from, convert_calls, UnifiedLlmRequest,
}

-- JSON values that are strings, and texts that are values unless they are empty.
abbrev from_text : Text → Result Text Text
from_text [] = err (codes "EOF")
from_text (c ∷ s) = ok (c ∷ s)

abbrev js : JsonText Text
js = record { as_string = λ v. some v; print = λ v. v; from_str = from_text }

abbrev World : Type 0
World = List (Text × List (StoredTurnRecord Text)) × ℕ

abbrev call_tool : ToolCallRequest Text → World → Result Text (ToolCallResponse Text) × World
call_tool r w = (ok (record { tool_id = r.tool_id; result = r.arguments; is_error = false }), w)

abbrev complete_unified :
    {F S : Type 0} → UnifiedLlmRequest Text F S → World → Result Text LlmResponse × World
complete_unified r w = (ok (record { content = none; tool_calls = none }), w)

abbrev routed_runtime : AgentRuntime Text World
routed_runtime = record {
  complete = complete_routed js (complete_unified {F = Unit {0}} {S = Unit {0}});
  store = memory_turns;
  tools = (codes "say", execute_dispatch js call_tool) ∷ [];
  config = default_config;
  new_record_id = λ w. (codes "id", w);
}

abbrev say : ToolCall Text
say = record { id = codes "7"; name = codes "say"; arguments = codes "hi" }

-- Arguments that are no JSON fail the response.
arguments_test :
    try_from js (record {
      content = none;
      tool_calls =
          some (record { id = codes "1"; function_name = codes "say"; arguments = [] } ∷ []);
    })
    ≡ err (provider (codes "invalid tool arguments for call `1`: EOF"))
unfolding try_from convert_calls
arguments_test = refl
