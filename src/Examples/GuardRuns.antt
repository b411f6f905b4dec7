-- ===== src/Examples/GuardRuns.antt =====
-- The authorization, the audits and the deliveries of the agent runtime at concrete inputs.
use seidrum.Store.{next_u32}
use seidrum.Base.{
  if◌then◌else◌, Text, codes, text_eq, text_eq→eq, false, Option, none, some, List, [], ◌∷◌, ◌≡◌,
  refl, subst, find, find-holds, arith, ◌⊎◌, inl,
}
use seidrum.Error.{Result, ok, err}
use seidrum.Agent.{RuntimeError, ToolCall, telegram, ChannelContinuationIdentity, session_id}
use seidrum.Agent.Turn.{ToolExecutor}
use seidrum.Agent.Permission.{
  allow, deny, for_tool, with_user_id, default_deny, decision_for, matches, authorize_by_rules,
  AuthorizationAuditRecord, AuditedSecureToolExecutor, ToolAuthorizationContext,
  ToolAuthorizationRule, execute_audited,
}
use seidrum.Agent.Permission.Rules.{Permitted, default_deny-Permitted}
use seidrum.Agent.Permission.Audits.{
  memory_audits, memory_audits-AuditLaws, Audited, Unaudited, execute_audited-Audited,
}
use seidrum.Agent.Outbox.{
  OutboundDeliveryRecord, new_delivery, OutboundRetryPolicy, OutboundDeliveryStore, dispatch_one,
  record_failure, mark_cancelled, mark_sent,
}
use seidrum.Agent.Outbox.Retries.{
  OutboxLaws, Settled, Dispatches, dispatch, no_dispatch, Dispatches-Settled,
}

abbrev chat : Text → Option Text → ChannelContinuationIdentity
chat id thread = record {
  provider = telegram;
  chat_id = id;
  thread_id = thread;
  user_id = some (codes "u");
  message_id = none;
  correlation_id = none;
}

abbrev context : ToolAuthorizationContext
context = record { session_id = none; channel_origin = some (chat (codes "c") none) }

abbrev rules : List ToolAuthorizationRule
rules =
    for_tool (codes "rm") (deny (codes "no"))
    ∷ with_user_id (for_tool (codes "ls") allow) (codes "u")
    ∷ []

default_deny-Permitted_example : Permitted rules (codes "ls") context
unfolding decision_for matches text_eq
default_deny-Permitted_example = default_deny-Permitted rules (codes "ls") context refl

abbrev Audits : Type 0
Audits = List AuthorizationAuditRecord × Unit {0}

abbrev list_files : ToolExecutor (Unit {0}) Audits
list_files call w =
    (ok (record { call_id = call.id; tool_name = call.name; content = []; is_error = false }), w)

abbrev guarded : AuditedSecureToolExecutor (Unit {0}) Audits
guarded = record {
  guarded = record {
    inner = list_files;
    authorize = λ r w. (authorize_by_rules (default_deny rules) r, w);
    session_id = none;
    channel_origin = some (chat (codes "c") none);
  };
  audit_store = memory_audits;
  new_record_id = λ w. (codes "id", w);
}

abbrev ls : ToolCall (Unit {0})
ls = record { id = codes "1"; name = codes "ls"; arguments = tt }

abbrev no_audits : Audits
no_audits = ([], tt)

execute_audited-Audited_example :
    Audited guarded
      (λ w. w.0)
      memory_audits-AuditLaws
      (λ w. refl)
      (λ call w. refl)
      ls
      no_audits
      (execute_audited guarded ls no_audits)
    ⊎ Unaudited guarded
        (λ w. w.0)
        memory_audits-AuditLaws
        (λ w. refl)
        (λ call w. refl)
        ls
        no_audits
        (execute_audited guarded ls no_audits)
execute_audited-Audited_example =
    execute_audited-Audited guarded (λ w. w.0) memory_audits-AuditLaws (λ w. refl) (λ call w. refl)
      ls no_audits

-- An outbox in memory, the latest record of a delivery first.
abbrev outbox_view : List OutboundDeliveryRecord → Text → Option OutboundDeliveryRecord
outbox_view w id = find (λ d. text_eq d.delivery_id id) w

abbrev outbox : OutboundDeliveryStore (List OutboundDeliveryRecord)
outbox = record {
  put_outbound_delivery = λ d w. (ok tt, d ∷ w);
  outbound_delivery = λ id w. ok (outbox_view w id);
  list_outbound_deliveries = λ w. ok w;
}

outbox_laws : OutboxLaws outbox outbox_view
outbox_laws = record {
  get_view = λ id w. inl refl;
  view_id = λ id w d found.
      text_eq→eq d.delivery_id id (find-holds (λ r. text_eq r.delivery_id id) w d found);
  put_view = λ d w w' did id.
      subst
        (λ (o : Result RuntimeError (Unit {0}) × List OutboundDeliveryRecord).
          outbox_view o.1 id ≡ (if text_eq d.delivery_id id then some d else outbox_view w id))
        did refl;
}

abbrev policy : OutboundRetryPolicy
policy = record { max_attempts = 2; backoff_schedule = codes "5s" ∷ codes "1m" ∷ [] }

abbrev message : OutboundDeliveryRecord
message = new_delivery (codes "d") (codes "s") none (codes "hello") none

abbrev once : OutboundDeliveryRecord
once = record_failure policy message (codes "down")

abbrev twice : OutboundDeliveryRecord
twice = record_failure policy once (codes "down")

two_failures :
    Dispatches outbox
      (err (codes "down"))
      policy
      (codes "d")
      2
      (message ∷ [])
      (twice ∷ once ∷ message ∷ [])
unfolding dispatch_one text_eq record_failure next_u32
two_failures = dispatch twice (dispatch once no_dispatch refl) refl

Dispatches-Settled_example :
    (d' : OutboundDeliveryRecord) × (outbox_view (twice ∷ once ∷ message ∷ []) (codes "d")
      ≡ some d')
    × Settled policy (codes "down") 2 1 d'
unfolding text_eq
Dispatches-Settled_example =
    Dispatches-Settled outbox outbox_view outbox_laws policy (codes "down") (codes "d") 1
      (message ∷ []) (twice ∷ once ∷ message ∷ []) message refl refl (omega arith) two_failures

-- Two chats with one session: a chat with a thread, and one whose id spells the thread.
session_test :
    session_id (chat (codes "a") (some (codes "b"))) ≡ session_id (chat (codes "a:thread:b") none)
unfolding session_id
session_test = refl

-- What was given up is dispatched again, and then counts as sent.
abbrev given_up : OutboundDeliveryRecord
given_up = mark_cancelled message (codes "no")

cancelled_test :
    (dispatch_one outbox (ok (codes "m")) policy (codes "d") (given_up ∷ [])).0
    ≡ ok (mark_sent given_up (some (codes "m")))
unfolding dispatch_one text_eq record_failure next_u32
cancelled_test = refl
