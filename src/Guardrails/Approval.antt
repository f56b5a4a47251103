-- ===== src/Guardrails/Approval.antt =====
-- backend/guardrails/hitl_gate.py: request_approval_node.
use Prim.Native.String.{◌++◌}
use revenueguard_ai.Common.{ℕ, ◌+◌, ◌*◌, String, Option, none, some, [], ◌∷◌, if◌then◌else◌}
use revenueguard_ai.Models.{
  ActionType, stop, Settings, StrategyDecision, ApprovalRecord, pending, requested, RecoveryState,
  case_value, amount_of, append_audit,
}
use revenueguard_ai.Models.Time.{Clock, hour_us}

-- `ActionType(enum_value(strategy.get("action_type", ActionType.STOP)))`
abbrev pub action_or_stop : Option StrategyDecision → ActionType
action_or_stop none = stop
action_or_stop (some d) = d.action_type

abbrev reasoning_of : Option StrategyDecision → String
reasoning_of none = ""
reasoning_of (some d) = d.reasoning

-- The request: it waits for two hours from `requested_at`.
unfoldable pub approval_request : String → ℕ → RecoveryState → ApprovalRecord
approval_request approval_id now state = record {
  approval_id = approval_id;
  case_id = state.case_id;
  payment_id =
      case_value (state.case_data.external_payment_id ∷ state.case_data.razorpay_payment_id ∷ [])
        "unknown";
  amount_paise = amount_of state.case_data;
  requested_action = action_or_stop state.strategy;
  agent_recommendation = reasoning_of state.strategy;
  status = pending;
  requested_at = now;
  expires_at = now + 2 * hour_us;
}

-- What the audit says of the delivery, where `post` is the webhook call: the name of its HTTP error,
-- or `none` where it went through.
abbrev delivery_note : Settings → (ApprovalRecord → Option String) → ApprovalRecord → String
delivery_note settings post r =
    if settings.approval_webhook_set
    then elim (post r) [
      | none ↦ "Approval sent to n8n."
      | some error ↦ "Approval created; n8n delivery failed (" ++ (error ++ ").")
    ]
    else "Approval recorded for API persistence."

unfoldable pub request_approval_node :
    Settings → (ApprovalRecord → Option String) → String → Clock → RecoveryState → RecoveryState
request_approval_node settings post approval_id clock state =
    let r = approval_request approval_id clock.approval_request state in
    record state {
      approval_status = some pending;
      approval_record = some (requested r);
      audit_trail =
          append_audit state "hitl_gate" "request_approval" (delivery_note settings post r)
            ("high_value_approval" ∷ []);
    }
