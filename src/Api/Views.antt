-- ===== src/Api/Views.antt =====
-- backend/api/main.py: what the API shows of a row. A moment is shown as its ISO text. A row with the
-- columns that its table fills in itself is a `Recorded` row.
use revenueguard_ai.Common.{ℕ, String, Option, none, some, List}
use revenueguard_ai.Common.Int.{ℤ}
use revenueguard_ai.Models.{
  event_value, status_value, category_value, arm_value, state_value, action_value, RecoveryChannel,
  StrategyDecision, ActionOutput, ApprovalStatus, Customer, Nested,
}
use revenueguard_ai.Models.Time.{Iso, utc}
use revenueguard_ai.Database.{
  RecoveryCase, RecoveryActionRecord, AuditLog, RecoveryApproval, StoredCustomer,
}

pub record Recorded (A : Type 0) : Type 0 where
  pub id : String
  pub created_at : ℕ
  pub row : A

abbrev pub option_map : {A B : Type 0} → (A → B) → Option A → Option B
option_map f none = none
option_map f (some a) = some (f a)

-- `_iso`
abbrev pub iso_text : Iso → Option ℕ → Option String
iso_text iso none = none
iso_text iso (some t) = some (iso.to_iso (utc t))

pub record CaseSummary : Type 0 where
  pub case_id : String
  pub status : String
  pub event_type : String
  pub amount_paise : ℤ
  pub currency : String
  pub failure_category : String
  pub recovery_probability : Option ℕ
  pub experiment_arm : Option String
  pub created_at : Option String

-- `_case_summary`
unfoldable pub case_summary : Iso → RecoveryCase → CaseSummary
case_summary iso c = record {
  case_id = c.case_id;
  status = status_value c.status;
  event_type = event_value c.event_type;
  amount_paise = c.amount_paise;
  currency = c.currency;
  failure_category = category_value c.failure_category;
  recovery_probability = c.recovery_probability;
  experiment_arm = option_map arm_value c.experiment_arm;
  created_at = iso_text iso (some c.created_at);
}

pub record CaseDetail : Type 0 where
  pub summary : CaseSummary
  pub external_payment_id : String
  pub external_order_id : Option String
  pub failure_source : String
  pub failure_reason : String
  pub error_code : String
  pub customer_id : String
  pub customer : Nested Customer
  pub merchant_id : String
  pub shap_reason_codes : List String
  pub gateway_health_state : Option String
  pub retry_count : ℕ
  pub last_retry_at : Option String
  pub recovered_at : Option String
  pub recovered_amount_paise : Option ℕ
  pub updated_at : Option String

-- `_public_customer`: everything but what stands under `_revenueguard_context`.
unfoldable pub public_customer : StoredCustomer → Nested Customer
public_customer stored = stored.customer

-- `_case_detail`
unfoldable pub case_detail : Iso → RecoveryCase → CaseDetail
case_detail iso c = record {
  summary = case_summary iso c;
  external_payment_id = c.external_payment_id;
  external_order_id = c.external_order_id;
  failure_source = c.failure_source;
  failure_reason = c.failure_reason;
  error_code = c.error_code;
  customer_id = c.customer_id;
  customer = public_customer c.customer_data;
  merchant_id = c.merchant_id;
  shap_reason_codes = c.shap_reason_codes;
  gateway_health_state = option_map state_value c.gateway_health_state;
  retry_count = c.retry_count;
  last_retry_at = iso_text iso c.last_retry_at;
  recovered_at = iso_text iso c.recovered_at;
  recovered_amount_paise = c.recovered_amount_paise;
  updated_at = iso_text iso c.updated_at;
}

pub record ActionView : Type 0 where
  pub id : String
  pub action_type : String
  pub channel : Option RecoveryChannel
  pub status : String
  pub input_state : StrategyDecision
  pub output_result : ActionOutput
  pub cost_paise : ℕ
  pub created_at : Option String

-- `_action_dict`
unfoldable pub action_dict : Iso → Recorded RecoveryActionRecord → ActionView
action_dict iso a = record {
  id = a.row.id;
  action_type = action_value a.row.action_type;
  channel = a.row.channel;
  status = a.row.status;
  input_state = a.row.input_state;
  output_result = a.row.output_result;
  cost_paise = a.row.cost_paise;
  created_at = iso_text iso (some a.created_at);
}

pub record AuditView : Type 0 where
  pub id : String
  pub action_id : Option String
  pub agent_name : String
  pub step : String
  pub reasoning : String
  pub guardrails_applied : List String
  pub created_at : Option String

-- `_audit_dict`, of the columns that the rows hold.
unfoldable pub audit_dict : Iso → Recorded AuditLog → AuditView
audit_dict iso a = record {
  id = a.id;
  action_id = a.row.action_id;
  agent_name = a.row.agent_name;
  step = a.row.step;
  reasoning = a.row.reasoning;
  guardrails_applied = a.row.guardrails_applied;
  created_at = iso_text iso (some a.created_at);
}

pub record ApprovalView : Type 0 where
  pub approval_id : String
  pub status : ApprovalStatus
  pub approved_by : Option String
  pub requested_at : Option String
  pub expires_at : Option String
  pub approved_at : Option String

-- `_approval_dict`
unfoldable pub approval_dict : Iso → RecoveryApproval → ApprovalView
approval_dict iso a = record {
  approval_id = a.approval_id;
  status = a.status;
  approved_by = a.approved_by;
  requested_at = iso_text iso (some a.requested_at);
  expires_at = iso_text iso (some a.expires_at);
  approved_at = iso_text iso a.approved_at;
}
