-- ===== src/Agents/Graph/Decisions.antt =====
-- What the branches of `agents/graph.py` and the nodes between them decide.
use revenueguard_ai.Common.{
  ℕ, ◌≡◌, refl, ◌≢◌, inl, inr, true, false, Bool-cases, Option, none, some, returned,
  >>=-eq-returned, arith, String,
}
use mathlib.Core.Path.{subst}
use revenueguard_ai.Common.Int.{pos, ◌<ℤ◌}
use revenueguard_ai.Models.{
  ActionType, smart_retry, StrategyDecision, ActionOutput, stop, action_value, RecoveryState,
  pending, amount_of, action_of_strategy, is_stop,
}
use revenueguard_ai.Guardrails.Policy.{needs_approval, has_valid_approval, assert_approved}
use revenueguard_ai.Guardrails.Policy.Laws.{IsPermitted}
use revenueguard_ai.Guardrails.Approval.{action_or_stop}
use revenueguard_ai.Agents.External.{External}
use revenueguard_ai.Agents.Nodes.{baseline_decide_node}
use revenueguard_ai.Agents.Strategy.{agent_strategize as strategize_node, strategy_result}
use revenueguard_ai.Agents.Channel.{channel_of, select_channel as select_channel_node}
use revenueguard_ai.Agents.Execution.{
  execute_action, execute, recorded, or_channel, recovery_action, final_decision_of,
}
use revenueguard_ai.Agents.Graph.{
  request_approval, execute_action as execute_node, log_audit as log_node, route_policy,
}
use revenueguard_ai.Agents.Graph.Frame.{SameCase}
use revenueguard_ai.Agents.Graph.Ends.{IsLawful, IsCleared}

pub moved : (P : RecoveryState → Type 0) {s t : RecoveryState} → returned s ≡ returned t → P s → P t
moved P e p = subst P (cc e) p

pub has_valid_approval-same :
    (ext : External) (now : ℕ) (s0 s : RecoveryState)
    → SameCase s0 s
    → has_valid_approval ext.iso now s ≡ has_valid_approval ext.iso now s0
unfolding has_valid_approval
has_valid_approval-same ext now s0 s same = rw (same.approval_status, same.approval_record) refl

pub baseline-planned : (s : RecoveryState) → (baseline_decide_node s).strategy ≢ none
unfolding baseline_decide_node
baseline-planned s = λ h. cc

pub strategize-planned :
    (ext : External) (s : RecoveryState) {s' : RecoveryState}
    → strategize_node ext s ≡ returned s'
    → s'.strategy ≢ none
unfolding strategize_node strategy_result
strategize-planned ext s h = ground arith

pub select-planned :
    (ext : External) (s : RecoveryState) {s' : RecoveryState}
    → s.strategy ≢ none
    → select_channel_node ext s ≡ returned s'
    → s'.strategy ≢ none
unfolding select_channel_node
select-planned ext s planned h = ground arith

pub IsHeld_of_needs :
    (ext : External) (s0 s : RecoveryState)
    → SameCase s0 s
    → s.strategy ≢ none
    → needs_approval ext.iso ext.settings ext.clock.approval_check s ≡ true
    → (action_or_stop s.strategy ≢ stop)
      × (pos ext.settings.high_value_threshold <ℤ amount_of s0.case_data)
      × (has_valid_approval ext.iso ext.clock.approval_check s0 ≡ false)
unfolding needs_approval
IsHeld_of_needs ext s0 s same planned h =
    rw (← has_valid_approval-same ext ext.clock.approval_check s0 s same, ← same.case_data)
      (go s.strategy refl planned)
  where
    go :
        (d : Option StrategyDecision)
        → s.strategy ≡ d
        → d ≢ none
        → (action_or_stop s.strategy ≢ stop)
          × (pos ext.settings.high_value_threshold <ℤ amount_of s.case_data)
          × (has_valid_approval ext.iso ext.clock.approval_check s ≡ false)
    go none e some_plan = absurd (some_plan refl)
    go (some d) e some_plan = (λ stopped_too. ground arith, ground arith, ground arith)

pub final_decision-plain :
    (s : RecoveryState)
    → s.approval_status ≢ some pending
    → s.error ≡ none
    → final_decision_of s ≡ action_value (action_or_stop s.strategy)
unfolding final_decision_of
final_decision-plain s plain fine = ground arith

pub final_decision-pending :
    (s : RecoveryState)
    → s.approval_status ≡ some pending
    → final_decision_of s ≡ "approval_pending"
unfolding final_decision_of
final_decision-pending s h = rw h

pub is_stop_iff : (a : ActionType) → is_stop a ≡ true → a ≡ stop
is_stop_iff stop h = refl
is_stop_iff smart_retry h = cc
is_stop_iff _ h = cc

module _ (t : RecoveryState) where
  pub route_policy-held : t.needs_approval ≡ true → route_policy t ≡ request_approval
  unfolding route_policy
  route_policy-held h = ground arith

  pub route_policy-halts :
      t.needs_approval ≡ false
      → is_stop (action_or_stop t.strategy) ≡ true
      → route_policy t ≡ log_node
  unfolding route_policy
  route_policy-halts h halts = ground arith

  pub route_policy-goes :
      t.needs_approval ≡ false
      → is_stop (action_or_stop t.strategy) ≡ false
      → route_policy t ≡ execute_node
  unfolding route_policy
  route_policy-goes h goes = ground arith

-- An action that was executed passed the last check of its approval.
pub execute_action-returned :
    (ext : External) (s : RecoveryState) {s' : RecoveryState}
    → execute_action ext s ≡ returned s'
    → (needs_approval ext.iso ext.settings ext.clock.assertion s ≡ false)
      × (result : ActionOutput × String) × (returned (recorded ext s result) ≡ returned s')
unfolding execute_action assert_approved
execute_action-returned ext s h =
    elim (Bool-cases (needs_approval ext.iso ext.settings ext.clock.assertion s)) [
      | inl needs ↦ absurd (ground arith)
      | inr free ↦
          let (result, _, e) =
            >>=-eq-returned
              (execute ext (action_or_stop s.strategy) s.case_data s.strategy
                (or_channel (channel_of s.strategy) s.selected_channel))
              (λ result. returned (recorded ext s result))
              (rw (free, execute_action, assert_approved) at h) in
          (free, result, e)
    ]

pub valid_of_free :
    (ext : External) (s : RecoveryState)
    → needs_approval ext.iso ext.settings ext.clock.assertion s ≡ false
    → action_or_stop s.strategy ≢ stop
    → pos ext.settings.high_value_threshold <ℤ amount_of s.case_data
    → has_valid_approval ext.iso ext.clock.assertion s ≡ true
unfolding needs_approval
valid_of_free ext s free acts high = ground arith

pub action_of_strategy-planned :
    (d : Option StrategyDecision)
    → action_or_stop d ≢ stop
    → action_of_strategy d ≡ some (action_or_stop d)
action_of_strategy-planned none acts = absurd (acts refl)
action_of_strategy-planned (some d) acts = refl

pub IsLawful_of_cleared :
    (ext : External) (s0 s : RecoveryState) (result : ActionOutput × String)
    → IsCleared ext s0 s
    → needs_approval ext.iso ext.settings ext.clock.assertion s ≡ false
    → IsLawful ext s0 (recovery_action ext s result).action_type
unfolding recovery_action
IsLawful_of_cleared ext s0 s result c free = record {
  permitted =
      subst
        (IsPermitted ext.iso ext.settings ext.clock.cooldown_check ext.clock.quiet_check
          s0.case_data)
        (action_of_strategy-planned s.strategy c.acts) c.permitted;
  acts = c.acts;
  approved = λ high.
      rw (← has_valid_approval-same ext ext.clock.assertion s0 s c.same)
        (valid_of_free ext s free c.acts (rw c.same.case_data high));
}
