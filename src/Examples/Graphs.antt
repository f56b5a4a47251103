-- ===== src/Examples/Graphs.antt =====
-- Runs of the recovery graph: in the control arm a small payment is retried, and that of a customer
-- who has opted out is left alone.
use revenueguard_ai.Common.{◌≡◌, refl, true, some, none, returned, Outcome, inl, [], truthy}
use revenueguard_ai.Models.{RecoveryState, customer_from_case, retry_count_of, amount_of}
use revenueguard_ai.Models.Time.{parse_datetime}
use revenueguard_ai.Database.{RecoveryCase}
use revenueguard_ai.Experiments.Assignment.{assign_experiment_arm, bucket_of}
use revenueguard_ai.Experiments.Baseline.{baseline_decide}
use revenueguard_ai.Guardrails.Policy.{
  check_all, check_clock, needs_approval, is_contact_or_retry, is_customer_contact, assert_approved,
}
use revenueguard_ai.Guardrails.Check.{policy_check_node, blocked_decision}
use revenueguard_ai.Agents.Nodes.{
  enrich_with_ml, enrich_with_health, assign_experiment, baseline_decide_node,
}
use revenueguard_ai.Agents.Execution.{execute_action, execute}
use revenueguard_ai.Agents.Graph.{
  invoke, run_node, run_from, successor, route_experiment, route_policy,
}
use revenueguard_ai.Agents.Graph.Runs.{invoke_total}
use revenueguard_ai.Agents.Graph.Ends.{RunEnd}
use revenueguard_ai.Agents.Graph.Trail.{IsClosed, invoke-IsClosed}
use revenueguard_ai.Agents.Graph.Safety.{invoke-RunEnd, invoke-barred}
use revenueguard_ai.Worker.Persist.{build_state, case_data_of}
use revenueguard_ai.Worker.Process.{start_state, active_approval, latest_approved}
use revenueguard_ai.Worker.Laws.{start_state-fresh}
use revenueguard_ai.Examples.World.{control_world, small_case, barred_case, database_of, state_or}

abbrev pub start : RecoveryCase → RecoveryState
start c = start_state control_world c (database_of c [])

abbrev pub end : RecoveryCase → RecoveryState
end c = state_or (start c) (invoke control_world (start c))

abbrev pub Returns : (c : RecoveryCase) → Type 0
Returns c = invoke control_world (start c) ≡ some (returned (end c))

pub small_run : Returns small_case
unfolding invoke run_node run_from successor route_experiment route_policy enrich_with_ml
    enrich_with_health assign_experiment assign_experiment_arm bucket_of baseline_decide_node
    baseline_decide policy_check_node check_all check_clock needs_approval is_contact_or_retry
    is_customer_contact execute_action execute assert_approved customer_from_case retry_count_of
    amount_of start_state build_state case_data_of active_approval latest_approved parse_datetime
small_run = refl

barred_run : Returns barred_case
unfolding invoke run_node run_from successor route_experiment route_policy enrich_with_ml
    enrich_with_health assign_experiment assign_experiment_arm bucket_of baseline_decide_node
    baseline_decide policy_check_node check_all check_clock is_contact_or_retry is_customer_contact
    needs_approval retry_count_of amount_of blocked_decision customer_from_case start_state
    build_state case_data_of active_approval latest_approved
barred_run = refl

no_error : (c : RecoveryCase) → (start c).error ≡ none
unfolding start_state build_state
no_error c = refl

opted_out : truthy (customer_from_case (start barred_case).case_data).opted_out ≡ true
unfolding customer_from_case start_state build_state case_data_of
opted_out = refl

invoke_total_example :
    (r : Outcome RecoveryState) × (invoke control_world (start small_case) ≡ some r)
invoke_total_example = invoke_total control_world (start small_case)

invoke-RunEnd_example : RunEnd control_world (start small_case) (end small_case)
invoke-RunEnd_example =
    invoke-RunEnd control_world (start small_case) (end small_case)
      (start_state-fresh control_world small_case (database_of small_case [])) (no_error small_case)
      small_run

invoke-barred_example :
    ((end barred_case).actions ≡ (start barred_case).actions)
    × ((end barred_case).final_decision ≡ some "stop")
invoke-barred_example =
    invoke-barred control_world (start barred_case) (end barred_case)
      (start_state-fresh control_world barred_case (database_of barred_case []))
      (no_error barred_case) (inl opted_out) barred_run

invoke-IsClosed_example : IsClosed control_world (start small_case) (end small_case)
invoke-IsClosed_example =
    invoke-IsClosed control_world (start small_case) (end small_case) small_run
