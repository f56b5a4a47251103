-- ===== src/Examples/Evaluations.antt =====
-- Two events of a batch: a gateway error that can be recovered, and a customer who has opted out.
use revenueguard_ai.Common.{ℕ, ◌≡◌, true, false, some, List, [], ◌∷◌, length, missing, value}
use revenueguard_ai.Evals.{BatchEvent, EvaluationRow, Health}
use revenueguard_ai.Evals.Laws.{AreRows}
use revenueguard_ai.Evals.Metrics.{BatchMetrics, run}
use revenueguard_ai.Evals.Metrics.Laws.{AreMetrics, run-AreMetrics}
use revenueguard_ai.Examples.Numbers.{whole_numbers}
use revenueguard_ai.Examples.Dashboards.{tests}

abbrev gateway_error : BatchEvent
gateway_error = record {
  event_id = value "evt_1";
  case_id = missing;
  amount_paise = 250_000;
  error_source = value "gateway";
  error_reason = value "gateway_error";
  opted_out = false;
  preferred_language = value "hi";
  bank_name = value "HDFC";
  payment_method = value "upi";
  is_recoverable = true;
  expected_recovery_method = value "smart_retry";
}

abbrev opted_out_event : BatchEvent
opted_out_event = record gateway_error {
  event_id = value "evt_2";
  amount_paise = 90_000;
  opted_out = true;
  is_recoverable = false;
  expected_recovery_method = missing;
}

abbrev events : List BatchEvent
events = gateway_error ∷ opted_out_event ∷ []

abbrev scorer : BatchEvent → Health → ℕ
scorer e health = 810_000

run-AreMetrics_example :
    (rows : List EvaluationRow) × (m : BatchMetrics whole_numbers) × (run whole_numbers tests
        (λ s. 7)
        scorer
        events
      ≡ some (rows, m))
    × AreRows events rows
    × AreMetrics whole_numbers (length events) m
run-AreMetrics_example = run-AreMetrics whole_numbers tests (λ s. 7) scorer events
