-- ===== src/Examples/Workers.antt =====
-- Jobs of the worker.
use revenueguard_ai.Common.{
  String, ◌≢◌, ◌+◌, ◌≡◌, refl, true, false, some, returned, raised, scorer_failed, [], ◌∷◌, arith,
  List, Option, ◌++◌, map, ◌<◌, ◌≤◌, ◌*◌, integrity_error,
}
use revenueguard_ai.Models.{
  RecoveryState, approved, customer_from_case, metadata_from_case, retry_count_of, amount_of,
  escalation_logged, category_value, RecoveryAction, ApprovalRecord, ApprovalEntry, requested, stop,
  pending,
}
use revenueguard_ai.Common.Int.{◌-ℤ◌, pos}
use revenueguard_ai.Models.Time.{parse_datetime, replace_z, to_utc, hour_us}
use revenueguard_ai.Experiments.Assignment.{assign_experiment_arm, bucket_of}
use revenueguard_ai.Experiments.Baseline.{baseline_decide}
use revenueguard_ai.Guardrails.Policy.{
  check_all, check_clock, needs_approval, is_contact_or_retry, is_customer_contact, assert_approved,
  has_valid_approval,
}
use revenueguard_ai.Guardrails.Check.{policy_check_node}
use revenueguard_ai.Agents.Nodes.{
  enrich_with_ml, enrich_with_health, assign_experiment, baseline_decide_node, bank_of, rail_of,
  healthy_default,
}
use revenueguard_ai.Agents.Execution.{execute_action, execute, recovery_action, log_audit}
use revenueguard_ai.Agents.Graph.{
  invoke, run_node, run_from, successor, route_experiment, route_policy,
}
use revenueguard_ai.Guardrails.Approval.{request_approval_node, approval_request}
use revenueguard_ai.Agents.Nodes.{agent_diagnose}
use revenueguard_ai.Agents.Strategy.{agent_strategize, deterministic_override, strategy_result}
use revenueguard_ai.Agents.Channel.{select_channel}
use revenueguard_ai.Database.{Database}
use revenueguard_ai.Database.Tables.{by}
use revenueguard_ai.Worker.Persist.{
  build_state, case_data_of, updated_case, is_smart_retry, case_status, add_actions, all_linked,
}
use revenueguard_ai.Worker.Process.{start_state, active_approval, latest_approved, process_case}
use revenueguard_ai.Worker.Laws.{IsSound, IsFailed, process_case-IsSound, process_case-raised}
use revenueguard_ai.Worker.Returns.{process_case-returned}
use revenueguard_ai.Examples.Graphs.{end, small_run}
use revenueguard_ai.Worker.Cooldown.{pending_retry-forbids_retry}
use revenueguard_ai.Worker.Actions.{Records, process_case-Records}
use revenueguard_ai.Examples.Texts.{
  write_int, write_offset, signed, read_int, offset_of, date_of, write_date, read_date, digits,
  number,
}
use revenueguard_ai.Examples.World.{
  control_world, treatment_world, failing_world, small_case, business_case, database_of, request,
  message, noon, state_or,
}

abbrev one : Database
one = database_of small_case []

one-IsSound : IsSound one
one-IsSound = record { cases = (tt, tt); actions = tt; approvals = tt }

process_case-IsSound_example : IsSound (process_case control_world message noon "REC-1" one)
process_case-IsSound_example =
    process_case-IsSound control_world message noon "REC-1" one one-IsSound

process_case-Records_example :
    Records control_world "REC-1" one (process_case control_world message noon "REC-1" one).actions
process_case-Records_example = process_case-Records control_world message noon "REC-1" one

fails :
    invoke failing_world (start_state failing_world small_case one) ≡ some (raised scorer_failed)
unfolding invoke run_from run_node enrich_with_ml start_state build_state
fails = refl

process_case-raised_example :
    IsFailed noon "REC-1"
      (message scorer_failed)
      small_case
      one
      (process_case failing_world message noon "REC-1" one)
process_case-raised_example =
    process_case-raised failing_world message noon "REC-1" one small_case scorer_failed refl fails

-- A first run asks for the approval of a retry, and it is granted at once.
abbrev asked : RecoveryState
asked =
    let s = start_state control_world business_case (database_of business_case []) in
    state_or s (invoke control_world s)

asked_retry : is_smart_retry asked.strategy ≡ true
unfolding invoke run_node run_from successor route_experiment route_policy enrich_with_ml
    enrich_with_health assign_experiment assign_experiment_arm bucket_of baseline_decide_node
    baseline_decide policy_check_node check_all check_clock needs_approval has_valid_approval
    is_contact_or_retry is_customer_contact request_approval_node approval_request log_audit
    customer_from_case retry_count_of amount_of start_state build_state case_data_of active_approval
    latest_approved parse_datetime
asked_retry = refl

asked_run :
    invoke control_world (start_state control_world business_case (database_of business_case []))
    ≡ some (returned asked)
unfolding invoke run_node run_from successor route_experiment route_policy enrich_with_ml
    enrich_with_health assign_experiment assign_experiment_arm bucket_of baseline_decide_node
    baseline_decide policy_check_node check_all check_clock needs_approval has_valid_approval
    is_contact_or_retry is_customer_contact request_approval_node approval_request log_audit
    customer_from_case retry_count_of amount_of start_state build_state case_data_of active_approval
    latest_approved parse_datetime
asked_run = refl

asked_waits : asked.final_decision ≡ some "approval_pending"
unfolding invoke run_node run_from successor route_experiment route_policy enrich_with_ml
    enrich_with_health assign_experiment assign_experiment_arm bucket_of baseline_decide_node
    baseline_decide policy_check_node check_all check_clock needs_approval has_valid_approval
    is_contact_or_retry is_customer_contact request_approval_node approval_request log_audit
    customer_from_case retry_count_of amount_of start_state build_state case_data_of active_approval
    latest_approved parse_datetime
asked_waits = refl

abbrev record_or : ApprovalRecord → Option ApprovalEntry → ApprovalRecord
record_or r (some (requested q)) = q
record_or r _ = r

abbrev no_request : ApprovalRecord
no_request = record {
  approval_id = "";
  case_id = "";
  payment_id = "";
  amount_paise = pos 0;
  requested_action = stop;
  agent_recommendation = "";
  status = pending;
  requested_at = 0;
  expires_at = 0;
}

abbrev asked_request : ApprovalRecord
asked_request = record_or no_request asked.approval_record

asked_request_is : asked.approval_record ≡ some (requested asked_request)
unfolding invoke run_node run_from successor route_experiment route_policy enrich_with_ml
    enrich_with_health assign_experiment assign_experiment_arm bucket_of baseline_decide_node
    baseline_decide policy_check_node check_all check_clock needs_approval has_valid_approval
    is_contact_or_retry is_customer_contact request_approval_node approval_request log_audit
    customer_from_case retry_count_of amount_of start_state build_state case_data_of active_approval
    latest_approved parse_datetime
asked_request_is = refl

asked_before : asked_request.requested_at ≤ noon
unfolding invoke run_node run_from successor route_experiment route_policy enrich_with_ml
    enrich_with_health assign_experiment assign_experiment_arm bucket_of baseline_decide_node
    baseline_decide policy_check_node check_all check_clock needs_approval has_valid_approval
    is_contact_or_retry is_customer_contact request_approval_node approval_request log_audit
    customer_from_case retry_count_of amount_of start_state build_state case_data_of active_approval
    latest_approved parse_datetime
asked_before = omega arith

checked_before : treatment_world.clock.cooldown_check < asked_request.expires_at
unfolding invoke run_node run_from successor route_experiment route_policy enrich_with_ml
    enrich_with_health assign_experiment assign_experiment_arm bucket_of baseline_decide_node
    baseline_decide policy_check_node check_all check_clock needs_approval has_valid_approval
    is_contact_or_retry is_customer_contact request_approval_node approval_request log_audit
    customer_from_case retry_count_of amount_of start_state build_state case_data_of active_approval
    latest_approved parse_datetime
checked_before = omega arith

abbrev granted : Database
granted =
    database_of (updated_case asked noon business_case)
      (record request { status = approved; approved_at = some noon } ∷ [])

abbrev again : RecoveryState
again = start_state treatment_world (updated_case asked noon business_case) granted

abbrev after : RecoveryState
after = state_or again (invoke treatment_world again)

abbrev first_or : RecoveryAction → List RecoveryAction → RecoveryAction
first_or a [] = a
first_or a (b ∷ l) = b

again_run : invoke treatment_world again ≡ some (returned after)
unfolding invoke run_node run_from successor route_experiment route_policy enrich_with_ml
    enrich_with_health assign_experiment assign_experiment_arm bucket_of baseline_decide_node
    baseline_decide policy_check_node check_all check_clock needs_approval has_valid_approval
    is_contact_or_retry is_customer_contact request_approval_node approval_request log_audit
    customer_from_case retry_count_of amount_of start_state build_state case_data_of active_approval
    latest_approved parse_datetime agent_diagnose agent_strategize deterministic_override
    strategy_result select_channel category_value updated_case case_status execute_action execute
    assert_approved healthy_default metadata_from_case bank_of rail_of write_int write_offset signed
    read_int offset_of date_of write_date read_date digits number replace_z to_utc ◌-ℤ◌
again_run = refl

abbrev escalation : RecoveryAction
escalation = first_or (recovery_action treatment_world again (escalation_logged, "")) after.actions

escalated : after.actions ≡ escalation ∷ []
unfolding invoke run_node run_from successor route_experiment route_policy enrich_with_ml
    enrich_with_health assign_experiment assign_experiment_arm bucket_of baseline_decide_node
    baseline_decide policy_check_node check_all check_clock needs_approval has_valid_approval
    is_contact_or_retry is_customer_contact request_approval_node approval_request log_audit
    customer_from_case retry_count_of amount_of start_state build_state case_data_of active_approval
    latest_approved parse_datetime agent_diagnose agent_strategize deterministic_override
    strategy_result select_channel category_value updated_case case_status execute_action execute
    assert_approved healthy_default metadata_from_case bank_of rail_of write_int write_offset signed
    read_int offset_of date_of write_date read_date digits number replace_z to_utc ◌-ℤ◌
    recovery_action
escalated = refl

pending_retry-forbids_retry_example :
    (asked_request.expires_at ≡ asked_request.requested_at + 2 * hour_us)
    × ((updated_case asked noon business_case).retry_count ≡ business_case.retry_count + 1)
    × ((updated_case asked noon business_case).last_retry_at ≡ some noon)
    × (is_contact_or_retry (some escalation.action_type) ≡ false)
pending_retry-forbids_retry_example =
    pending_retry-forbids_retry control_world (database_of business_case []) business_case asked
      asked_request noon treatment_world granted after escalation asked_run asked_waits
      asked_request_is asked_retry asked_before (omega arith) checked_before again_run escalated

process_case-returned_example :
    let db' = process_case control_world message noon "REC-1" one in
    let linked =
      all_linked (add_actions "REC-1" (end small_case).actions []) (end small_case).audit_trail in
    (linked ≡ true
      → (by (λ r. r.case_id) "REC-1" db'.cases
          ≡ some (updated_case (end small_case) noon small_case))
        × ((k : String)
            → k ≢ "REC-1"
            → by (λ r. r.case_id) k db'.cases ≡ by (λ r. r.case_id) k one.cases)
        × (db'.audits
            ≡ []
              ++ map
                  (λ e. record {
                    case_id = "REC-1";
                    action_id = e.action_id;
                    agent_name = e.agent_name;
                    step = e.step;
                    reasoning = e.reasoning;
                    guardrails_applied = e.guardrails_applied;
                  })
                  (end small_case).audit_trail))
    × (linked ≡ false → IsFailed noon "REC-1" (message integrity_error) small_case one db')
process_case-returned_example =
    process_case-returned control_world message noon "REC-1" one small_case (end small_case) refl
      small_run
