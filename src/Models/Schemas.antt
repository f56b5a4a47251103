-- ===== src/Models/Schemas.antt =====
-- backend/models/schemas.py. Rates are millionths, which is what the code rounds them to.
use revenueguard_ai.Common.{ℕ, String, Bool, Option, none, List, Entry}
use revenueguard_ai.Common.Int.{ℤ}
use revenueguard_ai.Models.Enums.{ActionType, RecoveryChannel, Priority, GatewayHealthState}
use revenueguard_ai.Models.Time.{TimeValue}

pub record TriageResult : Type 0 where
  pub recovery_probability : ℕ
  pub expected_recovery_paise : ℕ
  pub priority : Priority
  pub shap_reason_codes : List String

pub record GatewayHealthSnapshot : Type 0 where
  pub bank : String
  pub rail : String
  pub state : GatewayHealthState
  pub success_rate : ℕ
  pub technical_failure_rate : ℕ
  pub business_decline_rate : ℕ
  pub timeout_rate : ℕ
  pub baseline_success_rate : ℕ
  pub sample_size : ℕ
  pub window_minutes : ℕ
  pub recommended_action : String
  pub retry_after_seconds : ℕ
  pub confidence : String

pub record DiagnosisResult : Type 0 where
  pub root_cause : String
  pub is_transient : Bool
  pub failure_category : String
  pub reasoning : String
  pub time_sensitivity : String

pub record StrategyDecision : Type 0 where
  pub action_type : ActionType
  pub channel : Option RecoveryChannel
  pub reasoning : String
  pub retry_delay_seconds : ℤ
  pub message_content : Option String
  pub payment_link_amount_paise : Option ℤ
  pub escalation_reason : Option String
  pub stopping_reason : Option String

-- The defaults of a decision: what a construction leaves out.
abbrev pub decision : ActionType → String → StrategyDecision
decision action reasoning = record {
  action_type = action;
  channel = none;
  reasoning = reasoning;
  retry_delay_seconds = ℤ.pos 0;
  message_content = none;
  payment_link_amount_paise = none;
  escalation_reason = none;
  stopping_reason = none;
}

-- What `_execute` returns as its output.
pub data ActionOutput : Type 0 where
  payment_link : String → ActionOutput
  scheduled_for deferred_until : ℕ → ActionOutput
  notification_logged : Option RecoveryChannel → Option String → ActionOutput
  escalation_logged stop_logged : ActionOutput

pub record RecoveryAction : Type 0 where
  pub action_id : String
  pub case_id : String
  pub action_type : ActionType
  pub channel : Option RecoveryChannel
  pub status : String
  pub input_state : StrategyDecision
  pub output_result : ActionOutput
  pub cost_paise : ℕ
  pub timestamp : ℕ
  pub idempotency_key : String

pub data ApprovalStatus : Type 0 where
  pending approved rejected : ApprovalStatus

pub record ApprovalRecord : Type 0 where
  pub approval_id : String
  pub case_id : String
  pub payment_id : String
  pub amount_paise : ℤ
  pub requested_action : ActionType
  pub agent_recommendation : String
  pub status : ApprovalStatus
  pub requested_at : ℕ
  pub expires_at : ℕ

-- The graph's `approval_record`: what the worker takes from the database, or a new request.
pub data ApprovalEntry : Type 0 where
  stored : (approval_id : String) → (expires_at : Entry TimeValue) → ApprovalEntry
  requested : ApprovalRecord → ApprovalEntry

-- An entry of the audit trail, without its id, its time and the two display summaries.
pub record AuditLogEntry : Type 0 where
  pub case_id : String
  pub action_id : Option String
  pub agent_name : String
  pub step : String
  pub reasoning : String
  pub guardrails_applied : List String
