-- ===== src/Agents/Execution.antt =====
-- backend/agents/execution_node.py: the action, and the end of a run.
use revenueguard_ai.Common.{
  ℕ, ◌+◌, ◌*◌, String, Bool, true, false, Option, none, some, [], ◌∷◌, ◌++◌, get, if◌then◌else◌,
  Outcome, returned, raised, ◌>>=◌, link_failed,
}
use revenueguard_ai.Common.Int.{pos, clamp_zero}
use revenueguard_ai.Models.{
  ActionType, smart_retry, nudge_email, nudge_sms, nudge_whatsapp, escalate_human, defer, stop,
  action_value, RecoveryChannel, sms, whatsapp, CaseData, StrategyDecision, ActionOutput,
  scheduled_for, deferred_until, notification_logged, escalation_logged, stop_logged,
  RecoveryAction, ApprovalStatus, pending, RecoveryState, append_audit, decision,
}
use revenueguard_ai.Models.Time.{second_us}
use revenueguard_ai.Guardrails.Policy.{assert_approved}
use revenueguard_ai.Guardrails.Approval.{action_or_stop}
use revenueguard_ai.Agents.External.{External}
use revenueguard_ai.Agents.Channel.{channel_of}

-- `max(0, int(strategy.get("retry_delay_seconds", 0) or 0))`
abbrev delay_of : Option StrategyDecision → ℕ
delay_of none = 0
delay_of (some d) = clamp_zero d.retry_delay_seconds

abbrev message_of : Option StrategyDecision → Option String
message_of none = none
message_of (some d) = d.message_content

-- `strategy.get("channel") or state.get("selected_channel")`
abbrev pub or_channel : Option RecoveryChannel → Option RecoveryChannel → Option RecoveryChannel
or_channel none c = c
or_channel (some c) _ = some c

-- `_execute`: the output and the status of the action.
unfoldable pub execute :
    External
    → ActionType
    → CaseData
    → Option StrategyDecision
    → Option RecoveryChannel
    → Outcome (ActionOutput × String)
execute ext ActionType.payment_link case strategy channel = elim (ext.create_payment_link case) [
  | none ↦ raised link_failed
  | some link ↦ returned (ActionOutput.payment_link link, "created")
]
execute ext smart_retry case strategy channel =
    returned (scheduled_for (ext.clock.execution + delay_of strategy * second_us), "scheduled")
execute ext defer case strategy channel =
    returned (deferred_until (ext.clock.execution + delay_of strategy * second_us), "deferred")
execute ext nudge_email case strategy channel =
    returned (notification_logged channel (message_of strategy), "queued")
execute ext nudge_sms case strategy channel =
    returned (notification_logged channel (message_of strategy), "queued")
execute ext nudge_whatsapp case strategy channel =
    returned (notification_logged channel (message_of strategy), "queued")
execute ext escalate_human case strategy channel = returned (escalation_logged, "escalated")
execute ext stop case strategy channel = returned (stop_logged, "stopped")

-- `_channel_cost`
unfoldable pub channel_cost : Option RecoveryChannel → ℕ
channel_cost (some sms) = 25
channel_cost (some whatsapp) = 50
channel_cost _ = 0

-- `_idempotency_key`
unfoldable pub idempotency_key :
    External → RecoveryState → ActionType → Option RecoveryChannel → String
idempotency_key ext state action channel =
    ext.key_digest state.case_id action channel
      (get state.case_data.retry_count (get state.case_data.prior_retry_count (some (pos 0))))

-- `{}` reads as the decision with every key at its default.
abbrev strategy_or_empty : Option StrategyDecision → StrategyDecision
strategy_or_empty none = decision stop ""
strategy_or_empty (some d) = d

unfoldable pub recovery_action : External → RecoveryState → ActionOutput × String → RecoveryAction
recovery_action ext state (output, status) =
    let action = action_or_stop state.strategy in
    let channel = or_channel (channel_of state.strategy) state.selected_channel in
    record {
      action_id = ext.action_id;
      case_id = state.case_id;
      action_type = action;
      channel = channel;
      status = status;
      input_state = strategy_or_empty state.strategy;
      output_result = output;
      cost_paise = channel_cost channel;
      timestamp = ext.clock.stamp;
      idempotency_key = idempotency_key ext state action channel;
    }

abbrev pub recorded : External → RecoveryState → ActionOutput × String → RecoveryState
recorded ext state result = record state {
  actions = state.actions ++ recovery_action ext state result ∷ [];
  audit_trail =
      state.audit_trail
      ++ record {
        case_id = state.case_id;
        action_id = some ext.action_id;
        agent_name = "execution";
        step = "execute_action";
        reasoning = "Action accepted by the deterministic execution adapter.";
        guardrails_applied = [];
      }
        ∷ [];
}

unfoldable pub execute_action : External → RecoveryState → Outcome RecoveryState
execute_action ext state = do
  _ ← assert_approved ext.iso ext.settings ext.clock.assertion state
  result ←
      execute ext (action_or_stop state.strategy) state.case_data state.strategy
        (or_channel (channel_of state.strategy) state.selected_channel)
  returned (recorded ext state result)

abbrev is_pending : Option ApprovalStatus → Bool
is_pending (some pending) = true
is_pending _ = false

-- The truth value of `state.get("error")`.
abbrev has_error : Option String → Bool
has_error none = false
has_error (some String.[]) = false
has_error (some s) = true

unfoldable pub final_decision_of : RecoveryState → String
final_decision_of state =
    if is_pending state.approval_status
    then "approval_pending"
    else if has_error state.error
    then "error"
    else action_value (action_or_stop state.strategy)

unfoldable pub log_audit : RecoveryState → RecoveryState
unfolding final_decision_of
log_audit state = record state {
  audit_trail =
      append_audit state "recovery_graph" "log_audit" "Recovery graph reached a terminal state." [];
  final_decision = some (final_decision_of state);
}
