-- ===== src/Models/State.antt =====
-- backend/agents/state.py, and the readers of its dictionaries in backend/agents/common.py.
use revenueguard_ai.Common.{
  String, Bool, Option, none, some, List, [], ◌∷◌, ◌++◌, Entry, missing, null, value, get,
  or_default,
}
use revenueguard_ai.Common.Int.{ℤ}
use revenueguard_ai.Models.Enums.{ActionType, RecoveryChannel, ExperimentArm}
use revenueguard_ai.Models.Time.{TimeValue}
use revenueguard_ai.Models.Schemas.{
  TriageResult, GatewayHealthSnapshot, DiagnosisResult, StrategyDecision, RecoveryAction,
  ApprovalStatus, ApprovalEntry, AuditLogEntry,
}

pub record Customer : Type 0 where
  pub name : Entry String
  pub email : Entry String
  pub phone : Entry String
  pub preferred_language : Entry String
  pub lifetime_value_paise : Entry ℤ
  pub whatsapp_eligible : Entry Bool
  pub opted_out : Entry Bool

-- `{}`
abbrev pub no_customer : Customer
no_customer = record {
  name = missing;
  email = missing;
  phone = missing;
  preferred_language = missing;
  lifetime_value_paise = missing;
  whatsapp_eligible = missing;
  opted_out = missing;
}

pub record Metadata : Type 0 where
  pub bank_name : Entry String
  pub payment_method : Entry String

abbrev pub no_metadata : Metadata
no_metadata = record { bank_name = missing; payment_method = missing }

-- The value under a key that should hold a dictionary: falsy (absent, `None`, `{}`), a dictionary with
-- some key, or something else.
pub data Nested (A : Type 0) : Type 0 where
  falsy : Nested A
  dict : A → Nested A
  other : Nested A

pub record CaseData : Type 0 where
  pub case_id : String
  pub amount_paise : Entry ℤ
  pub retry_count : Entry ℤ
  pub prior_retry_count : Entry ℤ
  pub last_retry_at : Entry TimeValue
  pub customer : Nested Customer
  pub customer_data : Nested Customer
  pub metadata : Nested Metadata
  pub failure_category : Entry String
  pub category : Entry String
  pub bank_name : Entry String
  pub payment_method : Entry String
  pub external_payment_id : Entry String
  pub razorpay_payment_id : Entry String

pub record RecoveryState : Type 0 where
  pub case_id : String
  pub case_data : CaseData
  pub triage : Option TriageResult
  pub gateway_health : Option GatewayHealthSnapshot
  pub experiment_arm : Option ExperimentArm
  pub diagnosis : Option DiagnosisResult
  pub strategy : Option StrategyDecision
  pub selected_channel : Option RecoveryChannel
  pub actions : List RecoveryAction
  pub needs_approval : Bool
  pub approval_status : Option ApprovalStatus
  pub audit_trail : List AuditLogEntry
  pub error : Option String
  pub final_decision : Option String
  pub approval_record : Option ApprovalEntry

-- `a or b`, of two values that should be dictionaries.
abbrev pub or_nested : {A : Type 0} → Nested A → Nested A → Nested A
or_nested falsy b = b
or_nested (dict x) b = dict x
or_nested other b = other

abbrev pub nested_or : {A : Type 0} → Nested A → A → A
nested_or (dict x) d = x
nested_or falsy d = d
nested_or other d = d

unfoldable pub customer_from_case : CaseData → Customer
customer_from_case c = nested_or (or_nested c.customer c.customer_data) no_customer

unfoldable pub metadata_from_case : CaseData → Metadata
metadata_from_case c = nested_or c.metadata no_metadata

-- `int(case.get("retry_count", case.get("prior_retry_count", 0)) or 0)`
unfoldable pub retry_count_of : CaseData → ℤ
retry_count_of c =
    or_default (get c.retry_count (get c.prior_retry_count (some (ℤ.pos 0)))) (ℤ.pos 0)

-- `int(case.get("amount_paise", 0) or 0)`
unfoldable pub amount_of : CaseData → ℤ
amount_of c = or_default (get c.amount_paise (some (ℤ.pos 0))) (ℤ.pos 0)

-- `enum_value((state.get("strategy") or {}).get("action_type"))`, where `none` is the text "".
abbrev pub action_of_strategy : Option StrategyDecision → Option ActionType
action_of_strategy none = none
action_of_strategy (some d) = some d.action_type

-- The value of the first key that is present and not `None`.
abbrev pub case_value : List (Entry String) → String → String
case_value [] d = d
case_value (value s ∷ rest) d = s
case_value (missing ∷ rest) d = case_value rest d
case_value (null ∷ rest) d = case_value rest d

-- append_audit: the trail with one more entry, for the case of the state.
unfoldable pub append_audit :
    RecoveryState → String → String → String → List String → List AuditLogEntry
append_audit s agent step reasoning guardrails =
    s.audit_trail
    ++ record {
      case_id = s.case_id;
      action_id = none;
      agent_name = agent;
      step = step;
      reasoning = reasoning;
      guardrails_applied = guardrails;
    }
      ∷ []
