-- ===== src/Examples/World.antt =====
-- A world of fixed answers, a case of 1,000 rupees, and a database that holds it.
use revenueguard_ai.Common.{
  ℕ, ◌+◌, ◌*◌, String, Bool, true, false, Option, none, some, List, [], ◌∷◌, value, missing, inl,
  Outcome, returned, Failure,
}
use revenueguard_ai.Common.Int.{pos}
use revenueguard_ai.Models.{
  payment_failed, detected, low, smart_retry, default_settings, no_customer, dict, falsy,
  RecoveryState, pending,
}
use revenueguard_ai.Models.Enums
use revenueguard_ai.Models.Time.{hour_us}
use revenueguard_ai.Database.{RecoveryCase, RecoveryApproval, Database}
use revenueguard_ai.Agents.External.{External}
use revenueguard_ai.Examples.Texts.{iso}

-- Half past three in the afternoon in Kolkata.
abbrev pub noon : ℕ
noon = 10 * hour_us

-- Every digest is `n`: 50 puts a case into the control arm, 0 into the treatment arm.
abbrev pub world : ℕ → External
world n = record {
  iso = iso;
  settings = default_settings;
  clock = record {
    cooldown_check = noon;
    quiet_check = noon;
    approval_check = noon;
    approval_request = noon;
    assertion = noon;
    execution = noon;
    stamp = noon;
  };
  score = λ c h. some (record {
    recovery_probability = 500_000;
    expected_recovery_paise = 50_000;
    priority = low;
    shap_reason_codes = [];
  });
  unified_health = λ bank rail. inl "ConnectionError";
  md5 = λ s. n;
  key_digest = λ case_id action channel count. case_id;
  diagnose = λ s. some (record {
    root_cause = "unknown";
    is_transient = false;
    failure_category = "unknown";
    reasoning = "";
    time_sensitivity = "LOW";
  });
  strategize = λ s. none;
  validate = λ p. none;
  lower = λ s. s;
  strip = λ s. s;
  expectation = λ customer channel. 0;
  create_payment_link = λ c. none;
  post_approval = λ r. none;
  approval_id = "APR-1";
  action_id = "ACT-1";
}

abbrev pub control_world : External
control_world = world 50

abbrev pub treatment_world : External
treatment_world = world 0

-- A world in which the scorer fails.
abbrev pub failing_world : External
failing_world = record (world 50) { score = λ c h. none }

abbrev pub case_of : ℕ → Bool → RecoveryCase
case_of amount opted_out = record {
  case_id = "REC-1";
  event_type = payment_failed;
  status = detected;
  external_payment_id = "pay_1";
  external_order_id = none;
  amount_paise = pos amount;
  currency = "INR";
  failure_category = Enums.FailureCategory.systemic;
  failure_source = "bank";
  failure_reason = "payment_failed";
  error_code = "BAD_REQUEST_ERROR";
  customer_id = "CUST-1";
  customer_data = record {
    customer = dict (record no_customer { opted_out = value opted_out });
    metadata = falsy;
    error_description = missing;
  };
  merchant_id = "default_merchant";
  recovery_probability = none;
  shap_reason_codes = [];
  experiment_arm = none;
  gateway_health_state = none;
  retry_count = 0;
  last_retry_at = none;
  recovered_at = none;
  recovered_amount_paise = none;
  created_at = 0;
  updated_at = none;
}

-- 1,000 rupees, and 60,000, which is above the threshold for an approval.
abbrev pub small_case : RecoveryCase
small_case = case_of 100_000 false

abbrev pub large_case : RecoveryCase
large_case = case_of 6_000_000 false

abbrev pub barred_case : RecoveryCase
barred_case = case_of 100_000 true

-- A failure of the merchant's own rules, which is escalated.
abbrev pub business_case : RecoveryCase
business_case = record large_case { failure_category = Enums.FailureCategory.business }

abbrev pub database_of : RecoveryCase → List RecoveryApproval → Database
database_of c approvals = record {
  cases = c ∷ [];
  actions = [];
  audits = [];
  health = [];
  assignments = [];
  approvals = approvals;
  webhook_events = [];
}

-- A request for the large case, which lapses at one o'clock.
abbrev pub request : RecoveryApproval
request = record {
  approval_id = "APR-1";
  case_id = "REC-1";
  payment_id = "pay_1";
  amount_paise = pos 6_000_000;
  requested_action = smart_retry;
  agent_recommendation = "Rule-based retry #1";
  status = pending;
  requested_at = noon;
  expires_at = noon + 2 * hour_us;
  approved_by = none;
  approved_at = none;
  decision_channel = none;
}

abbrev pub message : Failure → String
message e = "failed"

-- The state of a run that returned.
abbrev pub state_or : RecoveryState → Option (Outcome RecoveryState) → RecoveryState
state_or s (some (returned t)) = t
state_or s _ = s
