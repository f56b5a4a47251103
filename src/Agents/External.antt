-- ===== src/Agents/External.antt =====
-- What one run of the recovery graph takes from code that is not in the repository, and from its own
-- singletons: each call is a function, and `none` is an exception of the call.
use revenueguard_ai.Common.{ℕ, String, Option, ◌⊎◌, Entry}
use revenueguard_ai.Common.Int.{ℤ}
use revenueguard_ai.Models.{
  Settings, ActionType, CaseData, TriageResult, GatewayHealthSnapshot, RecoveryState,
  DiagnosisResult, StrategyDecision, ApprovalRecord, RecoveryChannel, Customer,
}
use revenueguard_ai.Models.Time.{Iso, Clock}

-- The language model's reply to the strategist, parsed as a JSON object: the keys that
-- `_normalize_strategy_payload` rewrites, and the rest.
pub record StrategyPayload : Type 0 where
  pub action_type : Entry String
  pub retry_delay_seconds : Entry ℤ
  pub reasoning : Entry String
  pub channel : Entry String
  pub message_content : Entry String

pub record External : Type 0 where
  pub iso : Iso
  pub settings : Settings
  pub clock : Clock
  -- TriageScorer.score
  pub score : CaseData → Option GatewayHealthSnapshot → Option TriageResult
  -- DowntimeMonitor.get_unified_health: the name of an exception's type, or the snapshot
  pub unified_health : String → String → String ⊎ GatewayHealthSnapshot
  -- hashlib: the MD5 of a text as a number; the SHA-256 of the text that joins a case, an action, a
  -- channel and the value under `retry_count` by colons
  pub md5 : String → ℕ
  pub key_digest : String → ActionType → Option RecoveryChannel → Option ℤ → String
  -- the language model, its reply parsed
  pub diagnose : RecoveryState → Option DiagnosisResult
  pub strategize : RecoveryState → Option StrategyPayload
  -- pydantic: `StrategyDecision(**payload)`
  pub validate : StrategyPayload → Option StrategyDecision
  -- str.lower, str.strip
  pub lower : String → String
  pub strip : String → String
  -- MAB.predict_expectations of the customer's segment
  pub expectation : Customer → RecoveryChannel → ℕ
  -- razorpay_client.create_payment_link
  pub create_payment_link : CaseData → Option String
  -- the approval webhook: the name of its HTTP error
  pub post_approval : ApprovalRecord → Option String
  -- uuid4
  pub approval_id : String
  pub action_id : String
