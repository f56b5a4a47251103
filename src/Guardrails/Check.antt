-- ===== src/Guardrails/Check.antt =====
-- backend/guardrails/policy_engine.py: policy_check_node.
pub mod Laws
use Prim.Native.String.{◌++◌}
use revenueguard_ai.Common.{String, Bool, true, false, Option, none, some, List, [], ◌∷◌}
use revenueguard_ai.Models.{stop, Settings, StrategyDecision, decision, RecoveryState, append_audit}
use revenueguard_ai.Models.Time.{Iso, Clock}
use revenueguard_ai.Guardrails.Policy.{check_all, needs_approval}

-- `reason or "Policy check failed"`
abbrev reason_or : Option String → String → String
reason_or none d = d
reason_or (some String.[]) d = d
reason_or (some s) d = s

-- `[reason] if reason else []`
abbrev listed : Option String → List String
listed none = []
listed (some String.[]) = []
listed (some s) = s ∷ []

-- `f"{reason}"`
abbrev shown : Option String → String
shown none = "None"
shown (some s) = s

unfoldable pub blocked_decision : Option String → StrategyDecision
blocked_decision reason = record (decision stop ("Policy blocked recovery: " ++ shown reason)) {
  stopping_reason = reason;
}

abbrev pub passed_checks : List String
passed_checks = "opt_out" ∷ "retry_limit" ∷ "cooldown" ∷ "quiet_hours" ∷ "recovery_cost" ∷ []

abbrev pub verdict_update :
    Iso → Settings → Clock → RecoveryState → Bool × Option String → RecoveryState
verdict_update iso settings clock state (false, reason) = record state {
  strategy = some (blocked_decision reason);
  needs_approval = false;
  audit_trail =
      append_audit state "policy_engine" "policy_check" (reason_or reason "Policy check failed")
        (listed reason);
}
verdict_update iso settings clock state (true, reason) = record state {
  needs_approval = needs_approval iso settings clock.approval_check state;
  audit_trail =
      append_audit state "policy_engine" "policy_check" "All deterministic policy checks passed."
        passed_checks;
}

unfoldable pub policy_check_node : Iso → Settings → Clock → RecoveryState → RecoveryState
policy_check_node iso settings clock state =
    verdict_update iso settings clock state
      (check_all iso settings clock.cooldown_check clock.quiet_check state)
