-- ===== src/Agent/Boundary/Calls.antt =====
-- Tools of crates/core/seidrum-agent-runtime/src/lib.rs that hand their calls to the dispatcher.
use seidrum.Base.{Text, Option, none, some, ◌≡◌, refl, sym, subst}
use seidrum.Error.{Result, ok, err}
use seidrum.Agent.{ToolCall, ToolResult}
use seidrum.Agent.Turn.{AgentRuntime, ToolExecutor, get_tool, run_tool, execute_tool, tool_outcome}
use seidrum.Agent.Boundary.{
  JsonText, ToolCallRequest, ToolCallResponse, dispatched, execute_dispatch,
  tool_call_to_dispatch_request,
}

module _ {V : Type 0} where
  -- The result is that of the call.
  abbrev pub Answers : ToolCall V → ToolResult → Type 0
  Answers call r = (r.call_id ≡ call.id) × (r.tool_name ≡ call.name)

module _ {V : Type 0} (js : JsonText V) where
  dispatched-Answers :
      (call : ToolCall V) (r : Result Text (ToolCallResponse V))
      → Answers call (tool_outcome call (dispatched js call r))
  dispatched-Answers call (ok response) = (refl, refl)
  dispatched-Answers call (err e) = (refl, refl)

module _ {V W : Type 0} (js : JsonText V) where
  -- A tool that is registered hands its calls to the dispatcher.
  abbrev pub Dispatching : Option (ToolExecutor V W) → Type 0
  Dispatching none = Unit
  Dispatching (some t) =
      (call_tool : ToolCallRequest V → W → Result Text (ToolCallResponse V) × W) × (t
        ≡ execute_dispatch js call_tool)

  run_tool-Answers :
      (o : Option (ToolExecutor V W)) (call : ToolCall V) (w : W)
      → Dispatching o
      → Answers call (run_tool o call w).0
  unfolding execute_dispatch
  run_tool-Answers none call w h = (refl, refl)
  run_tool-Answers (some t) call w (call_tool, is) =
      subst (λ e. Answers call (run_tool (some e) call w).0) (sym is)
        (dispatched-Answers js call (call_tool (tool_call_to_dispatch_request call) w).0)

  -- If the tool that a call names is not registered or hands its calls to the dispatcher, the
  -- result of the call has the call's id and its tool's name, also when the dispatcher fails.
  pub execute_tool-Answers :
      (rt : AgentRuntime V W) (call : ToolCall V) (w : W)
      → Dispatching (get_tool rt.tools call.name)
      → Answers call (execute_tool rt call w).0
  unfolding execute_tool
  execute_tool-Answers rt call w h = run_tool-Answers (get_tool rt.tools call.name) call w h
