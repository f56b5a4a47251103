-- ===== src/Agents/Graph/Frame.antt =====
-- What the nodes before the decision leave alone.
use revenueguard_ai.Common.{◌≡◌, returned, arith}
use revenueguard_ai.Models.{RecoveryState}
use revenueguard_ai.Agents.External.{External}
use revenueguard_ai.Agents.Nodes.{
  enrich_with_ml, enrich_with_health, assign_experiment, baseline_decide_node, agent_diagnose,
}
use revenueguard_ai.Agents.Strategy.{agent_strategize, strategy_result}
use revenueguard_ai.Agents.Channel.{select_channel}
use revenueguard_ai.Guardrails.Check.{policy_check_node}

-- The case, the actions and the approval of one state are those of another.
pub record SameCase (s s' : RecoveryState) : Type 0 where
  pub case_id : s'.case_id ≡ s.case_id
  pub case_data : s'.case_data ≡ s.case_data
  pub actions : s'.actions ≡ s.actions
  pub approval_status : s'.approval_status ≡ s.approval_status
  pub approval_record : s'.approval_record ≡ s.approval_record
  pub error : s'.error ≡ s.error

pub SameCase-refl : (s : RecoveryState) → SameCase s s
SameCase-refl s = ground arith

pub SameCase-trans : {s t u : RecoveryState} → SameCase s t → SameCase t u → SameCase s u
SameCase-trans p q = ground arith

module _ (ext : External) (s : RecoveryState) {s' : RecoveryState} where
  pub enrich_with_ml-SameCase : enrich_with_ml ext s ≡ returned s' → SameCase s s'
  unfolding enrich_with_ml
  enrich_with_ml-SameCase h = ground arith

  pub assign_experiment-SameCase : assign_experiment ext s ≡ returned s' → SameCase s s'
  unfolding assign_experiment
  assign_experiment-SameCase h = ground arith

  pub agent_diagnose-SameCase : agent_diagnose ext s ≡ returned s' → SameCase s s'
  unfolding agent_diagnose
  agent_diagnose-SameCase h = ground arith

  pub agent_strategize-SameCase : agent_strategize ext s ≡ returned s' → SameCase s s'
  unfolding agent_strategize strategy_result
  agent_strategize-SameCase h = ground arith

  pub select_channel-SameCase : select_channel ext s ≡ returned s' → SameCase s s'
  unfolding select_channel
  select_channel-SameCase h = ground arith

module _ (ext : External) (s : RecoveryState) where
  pub enrich_with_health-SameCase : SameCase s (enrich_with_health ext s)
  unfolding enrich_with_health
  enrich_with_health-SameCase = ground arith

  pub baseline_decide_node-SameCase : SameCase s (baseline_decide_node s)
  unfolding baseline_decide_node
  baseline_decide_node-SameCase = ground arith

  pub policy_check_node-SameCase : SameCase s (policy_check_node ext.iso ext.settings ext.clock s)
  unfolding policy_check_node
  policy_check_node-SameCase = ground arith
