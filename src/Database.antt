-- ===== src/Database.antt =====
-- backend/db/orm_models.py: the tables that the worker, the API and the webhook use, as lists of
-- rows in the order of their insertion. A moment is a count of microseconds, as UTCDateTime stores
-- it.
pub mod Tables
pub mod Types
pub mod Orders
use revenueguard_ai.Common.{ℕ, Bool, String, Option, List, Entry}
use revenueguard_ai.Common.Int.{ℤ}
use revenueguard_ai.Models.{
  EventType, EventStatus, FailureCategory, ExperimentArm, GatewayHealthState, ActionType,
  RecoveryChannel, ApprovalStatus, ActionOutput, StrategyDecision, Customer, Metadata, Nested,
  GatewayHealthSnapshot,
}

-- The JSON column `customer_data`: the customer, and what stands under `_revenueguard_context`.
pub record StoredCustomer : Type 0 where
  pub customer : Nested Customer
  pub metadata : Nested Metadata
  pub error_description : Entry String

pub record RecoveryCase : Type 0 where
  pub case_id : String
  pub event_type : EventType
  pub status : EventStatus
  pub external_payment_id : String
  pub external_order_id : Option String
  pub amount_paise : ℤ
  pub currency : String
  pub failure_category : FailureCategory
  pub failure_source : String
  pub failure_reason : String
  pub error_code : String
  pub customer_id : String
  pub customer_data : StoredCustomer
  pub merchant_id : String
  pub recovery_probability : Option ℕ
  pub shap_reason_codes : List String
  pub experiment_arm : Option ExperimentArm
  pub gateway_health_state : Option GatewayHealthState
  pub retry_count : ℕ
  pub last_retry_at : Option ℕ
  pub recovered_at : Option ℕ
  pub recovered_amount_paise : Option ℕ
  pub created_at : ℕ
  pub updated_at : Option ℕ

pub record RecoveryActionRecord : Type 0 where
  pub id : String
  pub case_id : String
  pub action_type : ActionType
  pub channel : Option RecoveryChannel
  pub status : String
  pub input_state : StrategyDecision
  pub output_result : ActionOutput
  pub cost_paise : ℕ
  pub idempotency_key : String

pub record AuditLog : Type 0 where
  pub case_id : String
  pub action_id : Option String
  pub agent_name : String
  pub step : String
  pub reasoning : String
  pub guardrails_applied : List String

pub record GatewayHealthRecord : Type 0 where
  pub case_id : String
  pub snapshot_data : GatewayHealthSnapshot

pub record ExperimentAssignmentRecord : Type 0 where
  pub experiment_id : String
  pub case_id : String
  pub arm : ExperimentArm

pub record RecoveryApproval : Type 0 where
  pub approval_id : String
  pub case_id : String
  pub payment_id : String
  pub amount_paise : ℤ
  pub requested_action : ActionType
  pub agent_recommendation : String
  pub status : ApprovalStatus
  pub requested_at : ℕ
  pub expires_at : ℕ
  pub approved_by : Option String
  pub approved_at : Option ℕ
  pub decision_channel : Option String

pub record WebhookEvent : Type 0 where
  pub razorpay_event_id : String
  pub event_type : String
  pub payment_id : Option String
  pub order_id : Option String
  pub signature_valid : Bool

pub record Database : Type 0 where
  pub cases : List RecoveryCase
  pub actions : List RecoveryActionRecord
  pub audits : List AuditLog
  pub health : List GatewayHealthRecord
  pub assignments : List ExperimentAssignmentRecord
  pub approvals : List RecoveryApproval
  pub webhook_events : List WebhookEvent
