-- ===== src/Evals.antt =====
-- evals/batch_runner.py: BatchEvaluator. An event is the dictionary of a batch, with amounts that are
-- not negative; a probability is in millionths, and a rate of the simulated health in hundredths.
pub mod Metrics
pub mod Laws
use revenueguard_ai.Common.{
  ℕ, ◌-◌, String, Bool, true, false, not, ◌&&◌, ◌||◌, Option, none, some, List, [], ◌∷◌, Outcome,
  returned, raised, if◌then◌else◌, leb, Entry, missing, null, value, get, or_default,
}
use revenueguard_ai.Common.Int.{pos}
use revenueguard_ai.Models.{
  ActionType, smart_retry, payment_link, nudge_email, nudge_sms, nudge_whatsapp, escalate_human,
  defer, stop, GatewayHealthState, closed, open_state, half_open, ExperimentArm, control, treatment,
}
use revenueguard_ai.Ingestion.Json.{is_word, ◌>>=◌}
use revenueguard_ai.Experiments.Assignment.{assign_experiment_arm}
use revenueguard_ai.Experiments.Baseline.{baseline_decide}

-- The keys that the evaluation reads; those of the customer, the metadata and the ground truth stand
-- beside the others.
pub record BatchEvent : Type 0 where
  pub event_id : Entry String
  pub case_id : Entry String
  pub amount_paise : ℕ
  pub error_source : Entry String
  pub error_reason : Entry String
  pub opted_out : Bool
  pub preferred_language : Entry String
  pub bank_name : Entry String
  pub payment_method : Entry String
  pub is_recoverable : Bool
  pub expected_recovery_method : Entry String

pub record EvaluationRow : Type 0 where
  pub event_id : String
  pub arm : ExperimentArm
  pub amount_paise : ℕ
  pub probability : ℕ
  pub predicted_recoverable : Bool
  pub actual_recoverable : Bool
  pub action_type : ActionType
  pub simulated_recovered : Bool
  pub simulated_revenue_paise : ℕ
  pub false_positive_cost_paise : ℕ

pub record Health : Type 0 where
  pub bank : String
  pub rail : String
  pub state : GatewayHealthState
  pub success_rate : ℕ
  pub gateway_health_score : ℕ
  pub technical_failure_rate : ℕ
  pub sample_size : ℕ
  pub recommended_action : String

-- `str(dictionary.get(key, default))`
abbrev pub str_get : Entry String → String → String
str_get e d = or_default (get e (some d)) "None"

-- `dictionary.get(key) or other`
abbrev pub or_else_text : Entry String → Option String → Option String
or_else_text (value (String.◌∷◌ c s)) other = some (String.◌∷◌ c s)
or_else_text _ other = other

-- `str(normalized["case_id"])`
unfoldable pub normalized_case_id : BatchEvent → String
normalized_case_id e = or_default (or_else_text e.case_id (get e.event_id none)) "None"

abbrev pub is_outage_reason : String → Bool
is_outage_reason r = is_word r "gateway_error" || is_word r "server_error" || is_word r "timeout"

abbrev pub health_of : BatchEvent → GatewayHealthState → ℕ → String → Health
health_of e state success_rate recommended = record {
  bank = or_default (or_else_text e.bank_name none) "unknown";
  rail = or_default (or_else_text e.payment_method none) "unknown";
  state = state;
  success_rate = success_rate;
  gateway_health_score = success_rate;
  technical_failure_rate = 100 - success_rate;
  sample_size = 75;
  recommended_action = recommended;
}

-- `_simulate_gateway_health`, of the normalized event.
unfoldable pub simulate_gateway_health : BatchEvent → Health
simulate_gateway_health e =
    let reason = str_get e.error_reason "unknown" in
    let source = str_get e.error_source "unknown" in
    if is_outage_reason reason || is_word source "gateway" || is_word source "network"
    then if is_word reason "gateway_error"
      then health_of e open_state 68 "DEFER"
      else health_of e half_open 68 "RETRY_NOW"
    else if is_word source "business"
    then health_of e closed 96 "RETRY_NOW"
    else health_of e closed 91 "RETRY_NOW"

abbrev pub has_open_circuit : GatewayHealthState → Bool
has_open_circuit open_state = true
has_open_circuit _ = false

-- `_agent_decide`, of the normalized event.
unfoldable pub agent_decide : BatchEvent → GatewayHealthState → ℕ → ActionType
agent_decide e state probability =
    let reason = str_get e.error_reason "unknown" in
    if e.opted_out || leb probability 150_000
    then stop
    else if is_word (str_get e.error_source "unknown") "business"
    then escalate_human
    else if has_open_circuit state
    then defer
    else if is_outage_reason reason || is_word reason "payment_failed"
    then smart_retry
    else if is_word reason "card_expired" || is_word reason "mandate_revoked"
    then payment_link
    else if is_word (str_get e.preferred_language "en") "hi"
    then nudge_whatsapp
    else nudge_email

-- `_simulate_baseline_recovery`, of the event itself.
unfoldable pub simulate_baseline_recovery : BatchEvent → Bool → Bool
simulate_baseline_recovery e actual_recoverable =
    let reason = str_get e.error_reason "" in
    actual_recoverable && (is_outage_reason reason || is_word reason "payment_failed")

abbrev pub matches_retry : ActionType → Bool
matches_retry smart_retry = true
matches_retry defer = true
matches_retry _ = false

abbrev pub matches_link : ActionType → Bool
matches_link payment_link = true
matches_link _ = false

abbrev pub matches_nudge : ActionType → Bool
matches_nudge nudge_email = true
matches_nudge nudge_sms = true
matches_nudge nudge_whatsapp = true
matches_nudge _ = false

abbrev pub gives_up : ActionType → Bool
gives_up stop = true
gives_up escalate_human = true
gives_up _ = false

-- `action_match`
unfoldable pub action_match : String → ActionType → Bool
action_match method action =
    if is_word method "smart_retry"
    then matches_retry action
    else if is_word method "payment_link"
    then matches_link action
    else is_word method "nudge" && matches_nudge action

-- `_simulate_agent_recovery`
unfoldable pub simulate_agent_recovery : BatchEvent → ActionType → ℕ → Bool → Bool
simulate_agent_recovery e action probability actual_recoverable =
    if not actual_recoverable || gives_up action
    then false
    else action_match (str_get e.expected_recovery_method "none") action && leb 350_000 probability

-- `_false_positive_cost`
unfoldable pub false_positive_cost : ActionType → ℕ
false_positive_cost nudge_sms = 25
false_positive_cost nudge_whatsapp = 50
false_positive_cost nudge_email = 0
false_positive_cost payment_link = 100
false_positive_cost smart_retry = 35
false_positive_cost defer = 10
false_positive_cost escalate_human = 500
false_positive_cost stop = 0

-- What an arm does with an event: its action, and whether the money comes back.
unfoldable pub decide_of : BatchEvent → GatewayHealthState → ℕ → ExperimentArm → ActionType × Bool
decide_of e state probability control =
    ((baseline_decide (pos 0)).action_type, simulate_baseline_recovery e e.is_recoverable)
decide_of e state probability treatment =
    let action = agent_decide e state probability in
    (action, simulate_agent_recovery e action probability e.is_recoverable)

-- `EvaluationRow(...)`; rounded to six places, a probability in millionths is itself.
abbrev pub row_of : BatchEvent → ℕ → ExperimentArm → ActionType → Bool → EvaluationRow
row_of e probability arm action recovered = record {
  event_id = or_default (get e.event_id (some (normalized_case_id e))) "None";
  arm = arm;
  amount_paise = e.amount_paise;
  probability = probability;
  predicted_recoverable = leb 500_000 probability;
  actual_recoverable = e.is_recoverable;
  action_type = action;
  simulated_recovered = recovered;
  simulated_revenue_paise = if recovered then e.amount_paise else 0;
  false_positive_cost_paise =
      if leb 500_000 probability && not e.is_recoverable then false_positive_cost action else 0;
}

abbrev pub arm_or : Outcome ExperimentArm → Option ExperimentArm
arm_or (returned arm) = some arm
arm_or (raised e) = none

-- `scorer` is the probability that the triage scorer gives an event, and `none` is an exception.
module _ (md5 : String → ℕ) (scorer : BatchEvent → Health → ℕ) where
  -- `_evaluate_event`
  unfoldable pub evaluate_event : BatchEvent → Option EvaluationRow
  evaluate_event e =
      let health = simulate_gateway_health e in
      let probability = scorer e health in
      arm_or (assign_experiment_arm md5 (normalized_case_id e) "recovery_agent_v1" 20) >>= λ arm.
      let (action, recovered) = decide_of e health.state probability arm in
      some (row_of e probability arm action recovered)

  -- `[self._evaluate_event(event) for event in events]`
  unfoldable pub evaluate_all : List BatchEvent → Option (List EvaluationRow)
  evaluate_all [] = some []
  evaluate_all (e ∷ es) = evaluate_event e >>= λ row. evaluate_all es >>= λ rows. some (row ∷ rows)
