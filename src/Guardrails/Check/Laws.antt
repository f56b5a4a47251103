-- ===== src/Guardrails/Check/Laws.antt =====
-- The two results of the policy node.
use revenueguard_ai.Common.{◌≡◌, ◌⊎◌, inl, inr, true, false, none, arith}
use revenueguard_ai.Models.{Settings, RecoveryState, stop}
use revenueguard_ai.Models.Time.{Iso, Clock}
use revenueguard_ai.Guardrails.Policy.{check_all, needs_approval}
use revenueguard_ai.Guardrails.Policy.Laws.{check_all-IsVerdict, pass, block}
use revenueguard_ai.Guardrails.Approval.{action_or_stop}
use revenueguard_ai.Guardrails.Check.{policy_check_node, blocked_decision}

-- A blocked case is stopped and waits for nobody; an allowed one keeps its strategy.
pub policy_check_node-cases :
    (iso : Iso) (settings : Settings) (clock : Clock) (s : RecoveryState)
    → let s' = policy_check_node iso settings clock s in
      ((s'.needs_approval ≡ false) × (action_or_stop s'.strategy ≡ stop))
      ⊎ ((s'.needs_approval ≡ needs_approval iso settings clock.approval_check s)
          × (s'.strategy ≡ s.strategy)
          × (check_all iso settings clock.cooldown_check clock.quiet_check s ≡ (true, none)))
unfolding policy_check_node blocked_decision
policy_check_node-cases iso settings clock s =
    elim (check_all-IsVerdict iso settings clock.cooldown_check clock.quiet_check s) [
      | block reason e ↦ inl (ground arith)
      | pass e ↦ inr (ground arith)
    ]
