-- ===== src/Worker/Persist.antt =====
-- backend/worker.py: _build_state, _case_status and _persist_result. The readings of the clock are
-- arguments; a moment parsed from the text that the graph wrote is that moment.
use revenueguard_ai.Common.{
  ℕ, ◌+◌, String, Bool, true, false, Option, none, some, List, [], ◌∷◌, ◌++◌, map, if◌then◌else◌,
  find, str_eq, missing, null, value, Entry, ◌&&◌, ◌||◌,
}
use revenueguard_ai.Common.Int.{pos}
use revenueguard_ai.Models.{
  EventStatus, escalated, stopped, executing, ActionType, smart_retry, stop, escalate_human,
  ExperimentArm, category_value, ApprovalStatus, pending, ApprovalRecord, ApprovalEntry, stored,
  requested, TriageResult, GatewayHealthSnapshot, StrategyDecision, RecoveryAction, AuditLogEntry,
  RecoveryState, CaseData, falsy,
}
use revenueguard_ai.Models.Enums
use revenueguard_ai.Models.Time.{Iso, TimeValue, moment, text, utc}
use revenueguard_ai.Database.{
  RecoveryCase, RecoveryActionRecord, AuditLog, GatewayHealthRecord, ExperimentAssignmentRecord,
  RecoveryApproval, Database,
}
use revenueguard_ai.Database.Tables.{add_missing, change}

-- `case.last_retry_at`, as the dictionary holds it.
abbrev retry_entry : Option ℕ → Entry TimeValue
retry_entry none = null
retry_entry (some t) = value (moment (utc t))

unfoldable pub case_data_of : RecoveryCase → CaseData
case_data_of c = record {
  case_id = c.case_id;
  amount_paise = value c.amount_paise;
  retry_count = value (pos c.retry_count);
  prior_retry_count = missing;
  last_retry_at = retry_entry c.last_retry_at;
  customer = c.customer_data.customer;
  customer_data = falsy;
  metadata = c.customer_data.metadata;
  failure_category = missing;
  category = value (category_value c.failure_category);
  bank_name = missing;
  payment_method = missing;
  external_payment_id = value c.external_payment_id;
  razorpay_payment_id = missing;
}

-- `_approval_state`
abbrev approval_state : Iso → Option RecoveryApproval → Option ApprovalEntry
approval_state iso none = none
approval_state iso (some a) =
    some (stored a.approval_id (value (text (iso.to_iso (utc a.expires_at)))))

abbrev status_of : Option RecoveryApproval → Option ApprovalStatus
status_of none = none
status_of (some a) = some a.status

-- `_build_state`
unfoldable pub build_state : Iso → RecoveryCase → Option RecoveryApproval → RecoveryState
build_state iso c approval = record {
  case_id = c.case_id;
  case_data = case_data_of c;
  triage = none;
  gateway_health = none;
  experiment_arm = none;
  diagnosis = none;
  strategy = none;
  selected_channel = none;
  actions = [];
  needs_approval = false;
  approval_status = status_of approval;
  audit_trail = [];
  error = none;
  final_decision = none;
  approval_record = approval_state iso approval;
}

abbrev pub is_pending : Option ApprovalStatus → Bool
is_pending (some pending) = true
is_pending _ = false

abbrev status_for : ActionType → EventStatus
status_for stop = stopped
status_for escalate_human = escalated
status_for _ = executing

abbrev status_by : Option StrategyDecision → EventStatus
status_by none = executing
status_by (some d) = status_for d.action_type

-- `_case_status`
unfoldable pub case_status : RecoveryState → EventStatus
case_status result =
    if is_pending result.approval_status then escalated else status_by result.strategy

abbrev pub is_retry : ActionType → Bool
is_retry smart_retry = true
is_retry _ = false

abbrev pub is_smart_retry : Option StrategyDecision → Bool
is_smart_retry none = false
is_smart_retry (some d) = is_retry d.action_type

abbrev probability_of : Option TriageResult → Option ℕ
probability_of none = none
probability_of (some t) = some t.recovery_probability

abbrev reason_codes_of : Option TriageResult → List String
reason_codes_of none = []
reason_codes_of (some t) = t.shap_reason_codes

abbrev state_of : Option GatewayHealthSnapshot → Option Enums.GatewayHealthState
state_of none = none
state_of (some h) = some h.state

-- The case's own columns after a run.
unfoldable pub updated_case : RecoveryState → ℕ → RecoveryCase → RecoveryCase
updated_case result now c =
    let c' = record c {
      recovery_probability = probability_of result.triage;
      shap_reason_codes = reason_codes_of result.triage;
      experiment_arm = result.experiment_arm;
      gateway_health_state = state_of result.gateway_health;
      status = case_status result;
      updated_at = some now;
    } in
    if is_smart_retry result.strategy
    then record c' { retry_count = c.retry_count + 1; last_retry_at = some now }
    else c'

unfoldable pub action_row : RecoveryAction → String → RecoveryActionRecord
action_row a case_id = record {
  id = a.action_id;
  case_id = case_id;
  action_type = a.action_type;
  channel = a.channel;
  status = a.status;
  input_state = a.input_state;
  output_result = a.output_result;
  cost_paise = a.cost_paise;
  idempotency_key = a.idempotency_key;
}

unfoldable pub add_actions :
    String → List RecoveryAction → List RecoveryActionRecord → List RecoveryActionRecord
add_actions case_id [] rows = rows
add_actions case_id (a ∷ l) rows =
    add_actions case_id l (add_missing (λ r. r.idempotency_key) (action_row a case_id) rows)

abbrev pub audit_row : String → AuditLogEntry → AuditLog
audit_row case_id e = record {
  case_id = case_id;
  action_id = e.action_id;
  agent_name = e.agent_name;
  step = e.step;
  reasoning = e.reasoning;
  guardrails_applied = e.guardrails_applied;
}

abbrev health_rows : String → Option GatewayHealthSnapshot → List GatewayHealthRecord
health_rows case_id none = []
health_rows case_id (some h) = record { case_id = case_id; snapshot_data = h } ∷ []

abbrev pub assigned : String → ExperimentAssignmentRecord → Bool
assigned case_id r = str_eq r.case_id case_id && str_eq r.experiment_id "recovery_agent_v1"

unfoldable pub add_assignment :
    String
    → Option ExperimentArm
    → List ExperimentAssignmentRecord
    → List ExperimentAssignmentRecord
add_assignment case_id none rows = rows
add_assignment case_id (some arm) rows = elim (find (assigned case_id) rows) [
  | none ↦ rows ++ record { experiment_id = "recovery_agent_v1"; case_id = case_id; arm = arm } ∷ []
  | some r ↦ rows
]

abbrev approval_row : String → ApprovalRecord → RecoveryApproval
approval_row case_id r = record {
  approval_id = r.approval_id;
  case_id = case_id;
  payment_id = r.payment_id;
  amount_paise = r.amount_paise;
  requested_action = r.requested_action;
  agent_recommendation = r.agent_recommendation;
  status = pending;
  requested_at = r.requested_at;
  expires_at = r.expires_at;
  approved_by = none;
  approved_at = none;
  decision_channel = none;
}

-- Only a request of this run carries what the row needs; the graph leaves no other one pending.
unfoldable pub add_approval :
    String
    → Option ApprovalStatus
    → Option ApprovalEntry
    → List RecoveryApproval
    → List RecoveryApproval
add_approval case_id (some pending) (some (requested r)) rows =
    add_missing (λ a. a.approval_id) (approval_row case_id r) rows
add_approval case_id _ _ rows = rows

-- AuditLog.action_id is a foreign key to RecoveryActionRecord.id.
abbrev pub has_id : String → List RecoveryActionRecord → Bool
has_id id [] = false
has_id id (r ∷ rows) = str_eq r.id id || has_id id rows

abbrev pub is_linked : List RecoveryActionRecord → Option String → Bool
is_linked rows none = true
is_linked rows (some id) = has_id id rows

abbrev pub all_linked : List RecoveryActionRecord → List AuditLogEntry → Bool
all_linked rows [] = true
all_linked rows (e ∷ entries) = is_linked rows e.action_id && all_linked rows entries

-- `_persist_result`, up to the commit
unfoldable pub persist_result : RecoveryState → ℕ → RecoveryCase → Database → Database
persist_result result now c db = record db {
  cases = change (λ r. r.case_id) c.case_id (updated_case result now) db.cases;
  health = db.health ++ health_rows c.case_id result.gateway_health;
  assignments = add_assignment c.case_id result.experiment_arm db.assignments;
  actions = add_actions c.case_id result.actions db.actions;
  audits = db.audits ++ map (audit_row c.case_id) result.audit_trail;
  approvals = add_approval c.case_id result.approval_status result.approval_record db.approvals;
}
