-- ===== src/Guardrails.antt =====
-- The guardrails on a tool loop, crates/core/seidrum-kernel/src/consciousness/guardrails.rs. The seconds
-- since the start, which the code reads from the clock, come with each call.
pub mod Counts
pub mod Runs
use seidrum.Base.{
  ℕ, ◌-◌, ◌+◌, if◌then◌else◌, leb, ltb, ◌==◌, Text, codes, text_eq, Bool, true, false, ◌&&◌, ◌||◌,
  Option, none, some, List, [], ◌∷◌, ◌++◌, ◌%◌,
}
use seidrum.Store.{next_u32, u32_mod}

pub record GuardrailConfig : Type 0 where
  pub turn_limit : ℕ
  pub time_limit_seconds : ℕ
  pub loop_detection_threshold : ℕ
  pub hitl_after_turns : Option ℕ

pub data GuardrailViolation : Type 0 where
  turn_limit_reached time_limit_reached : ℕ → GuardrailViolation
  loop_detected : Text → ℕ → GuardrailViolation
  hitl_required : ℕ → GuardrailViolation

-- `tool_call_history` lists each key with its count.
pub record GuardrailState : Type 0 where
  pub turn_count : ℕ
  pub tool_call_history : List (Text × ℕ)
  pub config : GuardrailConfig

abbrev pub new : GuardrailConfig → GuardrailState
new config = record { turn_count = 0; tool_call_history = []; config = config }

-- `entry(key).or_insert(0)` and the addition to it: the new count and the new map.
unfoldable pub count_call : Text → List (Text × ℕ) → ℕ × List (Text × ℕ)
count_call key [] = (1, (key, 1) ∷ [])
count_call key ((k, n) ∷ history) =
    let (count, rest) = count_call key history in
    if text_eq k key then (next_u32 n, (k, next_u32 n) ∷ history) else (count, (k, n) ∷ rest)

abbrev pub crosses : Option ℕ → ℕ → Bool
crosses none turns = false
crosses (some after) turns = leb after turns && (turns == after || ltb (turns - 1) after)

unfoldable pub record_turn :
    ℕ → Text → Text → GuardrailState → Option GuardrailViolation × GuardrailState
record_turn elapsed tool hash s =
    let turns = next_u32 s.turn_count in
    let s1 = record s { turn_count = turns } in
    let (count, history) = count_call (tool ++ codes ":" ++ hash) s.tool_call_history in
    let s2 = record s1 { tool_call_history = history } in
    if leb s.config.turn_limit turns
    then (some (turn_limit_reached turns), s1)
    else if leb s.config.time_limit_seconds elapsed
    then (some (time_limit_reached elapsed), s1)
    else if leb s.config.loop_detection_threshold count
    then (some (loop_detected tool count), s2)
    else if crosses s.config.hitl_after_turns turns
    then (some (hitl_required turns), s2)
    else (none, s2)

abbrev pub add_provider_rounds : ℕ → GuardrailState → GuardrailState
add_provider_rounds rounds s = record s { turn_count = (s.turn_count + rounds) % u32_mod }

abbrev pub default_user_conversation : GuardrailConfig
default_user_conversation = record {
  turn_limit = 50;
  time_limit_seconds = 600;
  loop_detection_threshold = 3;
  hitl_after_turns = some 20;
}

abbrev pub default_consciousness : GuardrailConfig
default_consciousness = record {
  turn_limit = 100;
  time_limit_seconds = 1800;
  loop_detection_threshold = 3;
  hitl_after_turns = none;
}

abbrev pub default_delegation : GuardrailConfig
default_delegation = record {
  turn_limit = 200;
  time_limit_seconds = 3600;
  loop_detection_threshold = 3;
  hitl_after_turns = none;
}

-- A tool call: its time, its tool and the hash of its arguments.
pub record Call : Type 0 where
  pub elapsed : ℕ
  pub tool_name : Text
  pub arguments_hash : Text

abbrev pub unless_stopped :
    (GuardrailState → Option GuardrailViolation × GuardrailState)
    → Option GuardrailViolation × GuardrailState
    → Option GuardrailViolation × GuardrailState
unless_stopped continue (none, s) = continue s
unless_stopped continue (some v, s) = (some v, s)

-- The calls of a response, up to one that a guardrail stops.
unfoldable pub record_calls :
    List Call → GuardrailState → Option GuardrailViolation × GuardrailState
record_calls [] s = (none, s)
record_calls (c ∷ calls) s =
    unless_stopped (record_calls calls) (record_turn c.elapsed c.tool_name c.arguments_hash s)
