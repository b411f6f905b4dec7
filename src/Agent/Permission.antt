-- ===== src/Agent/Permission.antt =====
-- The authorization of tool calls, crates/core/seidrum-agent-runtime/src/lib.rs: the rules, the audit
-- records and the executors that ask before they run a tool.
pub mod Rules
pub mod Audits
use seidrum.Base.{
  ℕ, if◌then◌else◌, Text, text_eq, codes, Bool, true, false, ◌&&◌, Option, none, some, List, [],
  ◌∷◌, ◌++◌, find, on_some, length, retain,
}
use seidrum.Error.{Result}
use seidrum.Agent.{
  RuntimeError, ToolCall, ToolResult, ChannelKind, channel_eq, ChannelContinuationIdentity,
}
use seidrum.Agent.Action.{Action, return, reading, calling, ◌>>=◌, ◌>>◌}
use seidrum.Agent.Turns.{sequence_after}
use seidrum.Agent.Turn.{ToolExecutor}

pub data ToolPermissionDecision : Type 0 where
  allow : ToolPermissionDecision
  deny require_approval : Text → ToolPermissionDecision

pub record ToolAuthorizationRequest (V : Type 0) : Type 0 where
  pub call_id : Text
  pub tool_name : Text
  pub arguments : V
  pub session_id : Option Text
  pub channel_origin : Option ChannelContinuationIdentity

pub record AuthorizationAuditRecord : Type 0 where
  pub audit_id : Text
  pub sequence : ℕ
  pub decision : ToolPermissionDecision
  pub tool_name : Text
  pub call_id : Text
  pub session_id : Option Text
  pub channel_origin : Option ChannelContinuationIdentity
  pub reason : Option Text

pub record ToolAuthorizationContext : Type 0 where
  pub session_id : Option Text
  pub channel_origin : Option ChannelContinuationIdentity

pub record ToolAuthorizationRule : Type 0 where
  pub tool_name : Text
  pub decision : ToolPermissionDecision
  pub channel_kind : Option ChannelKind
  pub user_id : Option Text
  pub session_id : Option Text

abbrev pub for_tool : Text → ToolPermissionDecision → ToolAuthorizationRule
for_tool name decision = record {
  tool_name = name;
  decision = decision;
  channel_kind = none;
  user_id = none;
  session_id = none;
}

abbrev pub with_channel_kind : ToolAuthorizationRule → ChannelKind → ToolAuthorizationRule
with_channel_kind rule kind = record rule { channel_kind = some kind }

abbrev pub with_user_id : ToolAuthorizationRule → Text → ToolAuthorizationRule
with_user_id rule user = record rule { user_id = some user }

abbrev pub with_session_id : ToolAuthorizationRule → Text → ToolAuthorizationRule
with_session_id rule session = record rule { session_id = some session }

-- An optional condition: a rule without it applies to all, one with it only to an equal value.
abbrev pub admits : {A : Type 0} → (A → A → Bool) → Option A → Option A → Bool
admits eq none actual = true
admits eq (some expected) none = false
admits eq (some expected) (some actual) = eq actual expected

-- `channel_origin.as_ref().and_then(|origin| origin.user_id.as_ref())`.
abbrev pub origin_user : Option ChannelContinuationIdentity → Option Text
origin_user none = none
origin_user (some origin) = origin.user_id

unfoldable pub matches : ToolAuthorizationRule → Text → ToolAuthorizationContext → Bool
matches rule name context =
    if text_eq rule.tool_name name
    then if admits channel_eq rule.channel_kind (on_some (λ o. o.provider) context.channel_origin)
      then if admits text_eq rule.user_id (origin_user context.channel_origin)
        then admits text_eq rule.session_id context.session_id
        else false
      else false
    else false

pub record RuleBasedToolAuthorizationBoundary : Type 0 where
  pub rules : List ToolAuthorizationRule
  pub default_decision : ToolPermissionDecision

abbrev pub default_deny : List ToolAuthorizationRule → RuleBasedToolAuthorizationBoundary
default_deny rules = record {
  rules = rules;
  default_decision = deny (codes "no matching authorization rule");
}

abbrev pub decision_or :
    ToolPermissionDecision → Option ToolAuthorizationRule → ToolPermissionDecision
decision_or default none = default
decision_or default (some rule) = rule.decision

unfoldable pub decision_for :
    RuleBasedToolAuthorizationBoundary → Text → ToolAuthorizationContext → ToolPermissionDecision
decision_for b name context =
    decision_or b.default_decision (find (λ rule. matches rule name context) b.rules)

unfoldable pub authorize_by_rules :
    {V : Type 0}
    → RuleBasedToolAuthorizationBoundary
    → ToolAuthorizationRequest V
    → ToolPermissionDecision
authorize_by_rules b r =
    decision_for b r.tool_name
      (record { session_id = r.session_id; channel_origin = r.channel_origin })

abbrev pub permission_decision_reason : ToolPermissionDecision → Option Text
permission_decision_reason allow = none
permission_decision_reason (deny reason) = some reason
permission_decision_reason (require_approval reason) = some reason

-- `AuthorizationAuditRecord::new`, with its id.
abbrev pub new_audit :
    {V : Type 0}
    → Text
    → ℕ
    → ToolPermissionDecision
    → ToolAuthorizationRequest V
    → AuthorizationAuditRecord
new_audit id sequence decision r = record {
  audit_id = id;
  sequence = sequence;
  decision = decision;
  tool_name = r.tool_name;
  call_id = r.call_id;
  session_id = r.session_id;
  channel_origin = r.channel_origin;
  reason = permission_decision_reason decision;
}

pub record AuthorizationAuditStore (W : Type 0) : Type 0 where
  pub append_authorization_audit : AuthorizationAuditRecord → Action W (Unit {0})
  pub list_authorization_audits : W → Result RuntimeError (List AuthorizationAuditRecord)

-- What an executor holds: the tool that it guards, the boundary that decides and, for its requests,
-- the session and the origin.
pub record SecureToolExecutor (V W : Type 0) : Type 0 where
  pub inner : ToolExecutor V W
  pub authorize : ToolAuthorizationRequest V → W → ToolPermissionDecision × W
  pub session_id : Option Text
  pub channel_origin : Option ChannelContinuationIdentity

pub record AuditedSecureToolExecutor (V W : Type 0) : Type 0 where
  pub guarded : SecureToolExecutor V W
  pub audit_store : AuthorizationAuditStore W
  pub new_record_id : W → Text × W

module _ {V : Type 0} where
  abbrev refused_result : ToolCall V → Text → ToolResult
  refused_result call message = record {
    call_id = call.id;
    tool_name = call.name;
    content = message;
    is_error = true;
  }

  abbrev pub refusal : ToolCall V → ToolPermissionDecision → Option ToolResult
  refusal call allow = none
  refusal call (deny reason) =
      some (refused_result call (codes "tool authorization denied: " ++ reason))
  refusal call (require_approval reason) =
      some (refused_result call (codes "tool authorization requires approval: " ++ reason))

module _ {V W : Type 0} where
  abbrev pub request : SecureToolExecutor V W → ToolCall V → ToolAuthorizationRequest V
  request x call = record {
    call_id = call.id;
    tool_name = call.name;
    arguments = call.arguments;
    session_id = x.session_id;
    channel_origin = x.channel_origin;
  }

  abbrev pub unless_refused :
      ToolExecutor V W → ToolCall V → Option ToolResult → Action W ToolResult
  unless_refused inner call none = inner call
  unless_refused inner call (some result) = return result

  unfoldable pub execute_secure : SecureToolExecutor V W → ToolExecutor V W
  execute_secure x call w =
      let (decision, w1) = x.authorize (request x call) w in
      unless_refused x.inner call (refusal call decision) w1

  unfoldable pub execute_audited : AuditedSecureToolExecutor V W → ToolExecutor V W
  execute_audited x call = do
    decision ← calling (x.guarded.authorize (request x.guarded call))
    audits ← reading x.audit_store.list_authorization_audits
    id ← calling x.new_record_id
    x.audit_store.append_authorization_audit
        (new_audit id (sequence_after (length audits)) decision (request x.guarded call))
    unless_refused x.guarded.inner call (refusal call decision)
