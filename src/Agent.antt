-- ===== src/Agent.antt =====
-- The data of the agent runtime, crates/core/seidrum-agent-runtime/src/lib.rs. `V` is the type of JSON
-- values, which the runtime only passes on.
pub mod Action
pub mod Turns
pub mod Turn
pub mod Permission
pub mod Outbox
pub mod Job
pub mod Boundary
use seidrum.Base.{
  ℕ, zero, suc, ◌+◌, ◌/◌, ◌%◌, if◌then◌else◌, ltb, Text, codes, text_eq, Bool, true, false, Option,
  none, some, List, [], ◌∷◌, ◌++◌,
}

pub data RuntimeError : Type 0 where
  provider : Text → RuntimeError
  tool : Text → Text → RuntimeError
  store : Text → RuntimeError
  tool_not_registered : Text → RuntimeError
  iteration_limit : ℕ → RuntimeError

-- `usize` as Rust prints it; a number has at most as many digits as its value, or one.
abbrev digits : ℕ → ℕ → Text
digits zero n = []
digits (suc fuel) n =
    let rest = digits fuel (n / 10) in
    if ltb n 10 then (48 + n) ∷ [] else rest ++ (48 + n % 10) ∷ []

abbrev pub decimal : ℕ → Text
decimal n = digits (suc n) n

unfoldable pub to_string : RuntimeError → Text
to_string (provider message) = codes "provider error: " ++ message
to_string (tool tool_name message) = codes "tool `" ++ tool_name ++ codes "` failed: " ++ message
to_string (store message) = codes "store error: " ++ message
to_string (tool_not_registered name) = codes "tool `" ++ name ++ codes "` is not registered"
to_string (iteration_limit n) =
    codes "provider did not return a final response within " ++ decimal n ++ codes " iterations"

pub record TurnInput : Type 0 where
  pub session_id : Text
  pub agent_id : Text
  pub user_message : Text

pub record ToolCall (V : Type 0) : Type 0 where
  pub id : Text
  pub name : Text
  pub arguments : V

pub record ToolResult : Type 0 where
  pub call_id : Text
  pub tool_name : Text
  pub content : Text
  pub is_error : Bool

pub data RuntimeEvent : Type 0 where
  outbound_response : Text → Text → Text → RuntimeEvent

pub record TurnOutput : Type 0 where
  pub session_id : Text
  pub agent_id : Text
  pub final_text : Text
  pub events : List RuntimeEvent
  pub tool_results : List ToolResult

pub record ContextMessage : Type 0 where
  pub role : Text
  pub content : Text

pub record ProviderRequest : Type 0 where
  pub session_id : Text
  pub agent_id : Text
  pub messages : List ContextMessage
  pub tool_results : List ToolResult

pub record ProviderResponse (V : Type 0) : Type 0 where
  pub final_text : Option Text
  pub tool_calls : List (ToolCall V)

pub record RuntimeConfig : Type 0 where
  pub max_tool_iterations : ℕ

abbrev pub default_config : RuntimeConfig
default_config = record { max_tool_iterations = 4 }

pub data ChannelKind : Type 0 where
  telegram : ChannelKind
  other : Text → ChannelKind

abbrev pub as_str : ChannelKind → Text
as_str telegram = codes "telegram"
as_str (other kind) = kind

abbrev pub channel_eq : ChannelKind → ChannelKind → Bool
channel_eq telegram telegram = true
channel_eq (other a) (other b) = text_eq a b
channel_eq _ _ = false

pub record ChannelContinuationIdentity : Type 0 where
  pub provider : ChannelKind
  pub chat_id : Text
  pub thread_id : Option Text
  pub user_id : Option Text
  pub message_id : Option Text
  pub correlation_id : Option Text

abbrev with_thread : Text → Option Text → Text
with_thread base none = base
with_thread base (some []) = base
with_thread base (some (c ∷ id)) = base ++ codes ":thread:" ++ c ∷ id

unfoldable pub session_id : ChannelContinuationIdentity → Text
session_id identity =
    with_thread (codes "channel:" ++ as_str identity.provider ++ codes ":chat:" ++ identity.chat_id)
      identity.thread_id

pub record ChannelTurnInput : Type 0 where
  pub origin : ChannelContinuationIdentity
  pub agent_id : Text
  pub user_message : Text

pub record TelegramInboundMessage : Type 0 where
  pub chat_id : Text
  pub thread_id : Option Text
  pub user_id : Option Text
  pub message_id : Text
  pub correlation_id : Option Text
  pub text : Text

abbrev pub channel_identity : TelegramInboundMessage → ChannelContinuationIdentity
channel_identity m = record {
  provider = telegram;
  chat_id = m.chat_id;
  thread_id = m.thread_id;
  user_id = m.user_id;
  message_id = some m.message_id;
  correlation_id = m.correlation_id;
}

unfoldable pub into_channel_turn : TelegramInboundMessage → Text → ChannelTurnInput
into_channel_turn m agent_id = record {
  origin = channel_identity m;
  agent_id = agent_id;
  user_message = m.text;
}
