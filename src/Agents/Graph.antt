-- ===== src/Agents/Graph.antt =====
-- backend/agents/graph.py: the nodes, the edges, and a run. LangGraph writes the keys that a node
-- returns over those of the state, and follows the one edge that leaves the node.
pub mod Runs
pub mod Frame
pub mod Ends
pub mod Decisions
pub mod Stages
pub mod Safety
pub mod Audit
pub mod Trail
use revenueguard_ai.Common.{
  ℕ, zero, suc, String, Bool, true, false, Option, none, some, if◌then◌else◌, Outcome, returned,
  raised,
}
use revenueguard_ai.Models.{
  RecoveryState, ExperimentArm, control, ActionType, StrategyDecision, is_stop,
}
use revenueguard_ai.Guardrails.Check.{policy_check_node}
use revenueguard_ai.Guardrails.Approval.{request_approval_node, action_or_stop}
use revenueguard_ai.Agents.External.{External}
use revenueguard_ai.Agents.Nodes.{enrich_with_ml, enrich_with_health, baseline_decide_node}
use revenueguard_ai.Agents.Nodes
use revenueguard_ai.Agents.Strategy
use revenueguard_ai.Agents.Channel
use revenueguard_ai.Agents.Execution

-- The nodes under the names that the graph gives them, and its end.
pub data Node : Type 0 where
  enrich_ml enrich_health assign_experiment baseline_decide agent_diagnose agent_strategize : Node
  select_channel policy_check request_approval execute_action log_audit finish : Node

unfoldable pub run_node : External → Node → RecoveryState → Outcome RecoveryState
run_node ext enrich_ml s = enrich_with_ml ext s
run_node ext enrich_health s = returned (enrich_with_health ext s)
run_node ext assign_experiment s = Nodes.assign_experiment ext s
run_node ext baseline_decide s = returned (baseline_decide_node s)
run_node ext agent_diagnose s = Nodes.agent_diagnose ext s
run_node ext agent_strategize s = Strategy.agent_strategize ext s
run_node ext select_channel s = Channel.select_channel ext s
run_node ext policy_check s = returned (policy_check_node ext.iso ext.settings ext.clock s)
run_node ext request_approval s =
    returned (request_approval_node ext.settings ext.post_approval ext.approval_id ext.clock s)
run_node ext execute_action s = Execution.execute_action ext s
run_node ext log_audit s = returned (Execution.log_audit s)
run_node ext finish s = returned s

-- `_route_experiment`
unfoldable pub route_experiment : Option ExperimentArm → Node
route_experiment (some control) = baseline_decide
route_experiment _ = agent_diagnose

-- `_route_policy`
unfoldable pub route_policy : RecoveryState → Node
route_policy s =
    if s.needs_approval
    then request_approval
    else if is_stop (action_or_stop s.strategy)
    then log_audit
    else execute_action

unfoldable pub successor : Node → RecoveryState → Node
unfolding route_experiment route_policy
successor enrich_ml s = enrich_health
successor enrich_health s = assign_experiment
successor assign_experiment s = route_experiment s.experiment_arm
successor baseline_decide s = policy_check
successor agent_diagnose s = agent_strategize
successor agent_strategize s = select_channel
successor select_channel s = policy_check
successor policy_check s = route_policy s
successor request_approval s = log_audit
successor execute_action s = log_audit
successor log_audit s = finish
successor finish s = finish

abbrev pub is_finish : Node → Bool
is_finish finish = true
is_finish _ = false

-- An exception of a node ends the run.
abbrev pub continue :
    Outcome RecoveryState
    → (RecoveryState → Option (Outcome RecoveryState))
    → Option (Outcome RecoveryState)
continue (raised e) rest = some (raised e)
continue (returned s) rest = rest s

-- A run from a node, on fuel: `none` means that the fuel ran out.
unfoldable pub run_from : External → ℕ → Node → RecoveryState → Option (Outcome RecoveryState)
run_from ext zero n s = none
run_from ext (suc fuel) n s =
    if is_finish n
    then some (returned s)
    else continue (run_node ext n s) (λ s'. run_from ext fuel (successor n s') s')

-- The longest way from the start goes through nine nodes.
abbrev pub graph_fuel : ℕ
graph_fuel = 10

unfoldable pub invoke : External → RecoveryState → Option (Outcome RecoveryState)
unfolding run_from
invoke ext s = run_from ext graph_fuel enrich_ml s
