-- ===== src/Agents/Strategy.antt =====
-- backend/agents/strategy_node.py: the deterministic overrides, and the language model's choice.
use Prim.Native.String.{◌++◌}
use revenueguard_ai.Common.{
  ℕ, String, Bool, true, false, Option, none, some, [], ◌∷◌, if◌then◌else◌, truthy, get, or_default,
  value, Outcome, returned, raised, ◌>>=◌, model_failed, str_eq, ◌==◌,
}
use revenueguard_ai.Common.Int.{pos, leb_ℤ, clamp_zero}
use revenueguard_ai.Models.{
  defer, stop, escalate_human, GatewayHealthState, open_state, GatewayHealthSnapshot,
  StrategyDecision, decision, RecoveryState, customer_from_case, retry_count_of, case_value,
  append_audit,
}
use revenueguard_ai.Agents.External.{External, StrategyPayload}

abbrev pub is_open_state : GatewayHealthState → Bool
is_open_state open_state = true
is_open_state _ = false

abbrev pub is_open : Option GatewayHealthSnapshot → Bool
is_open none = false
is_open (some h) = is_open_state h.state

-- `int(health.get("retry_after_seconds", 600) or 600)`
abbrev defer_seconds : Option GatewayHealthSnapshot → ℕ
defer_seconds none = 600
defer_seconds (some h) = if h.retry_after_seconds == 0 then 600 else h.retry_after_seconds

-- `_deterministic_override`
unfoldable pub deterministic_override : External → RecoveryState → Option StrategyDecision
deterministic_override ext state =
    let case = state.case_data in
    if is_open state.gateway_health
    then some (record (decision defer "Gateway circuit breaker is open.") {
      retry_delay_seconds = pos (defer_seconds state.gateway_health);
    })
    else if truthy (customer_from_case case).opted_out
    then some (record (decision stop "Customer has opted out of recovery contact.") {
      stopping_reason = some "Customer opted out";
    })
    else if leb_ℤ (pos ext.settings.max_retry_attempts) (retry_count_of case)
    then some (record (decision stop "Maximum retry count reached.") {
      stopping_reason = some "Retry limit reached";
    })
    else if str_eq (ext.lower (case_value (case.failure_category ∷ case.category ∷ []) ""))
        "business"
    then some (record (decision escalate_human "Business failures require merchant review.") {
      escalation_reason = some "Business-rule failure";
    })
    else none

-- `_normalize_strategy_payload`: `recovery_probability` is no field of the payload, so it is dropped.
-- `str(None).lower()` is "none".
unfoldable pub normalize_strategy_payload : (String → String) → StrategyPayload → StrategyPayload
normalize_strategy_payload lower p = record p {
  action_type = value (lower (or_default (get p.action_type (some "stop")) "None"));
  retry_delay_seconds =
      value (pos (clamp_zero (or_default (get p.retry_delay_seconds none) (pos 0))));
}

unfoldable pub strategy_result :
    External → RecoveryState → StrategyDecision → String → RecoveryState
strategy_result ext state d audit_reason = record state {
  strategy = some d;
  audit_trail =
      append_audit state "strategy_agent" "agent_strategize"
        (ext.strip (audit_reason ++ (" " ++ d.reasoning))) [];
}

abbrev pub validated : External → Option StrategyPayload → Outcome StrategyDecision
validated ext none = raised model_failed
validated ext (some p) = elim (ext.validate (normalize_strategy_payload ext.lower p)) [
  | none ↦ raised model_failed
  | some d ↦ returned d
]

unfoldable pub agent_strategize : External → RecoveryState → Outcome RecoveryState
agent_strategize ext state = elim (deterministic_override ext state) [
  | some d ↦ returned (strategy_result ext state d "Deterministic override applied.")
  | none ↦ validated ext (ext.strategize state) >>= λ d.
      returned (strategy_result ext state d "LLM selected an action within the fixed action set.")
]
