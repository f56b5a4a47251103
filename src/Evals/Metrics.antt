-- ===== src/Evals/Metrics.antt =====
-- evals/batch_runner.py: _calculate_metrics. `none` is an exception.
pub mod Laws
use revenueguard_ai.Common.{
  ℕ, ◌+◌, String, Bool, true, false, not, ◌&&◌, Option, none, some, List, [], ◌∷◌, if◌then◌else◌,
  length, filter,
}
use revenueguard_ai.Common.Int.{pos}
use revenueguard_ai.Common.Floats.{Floats}
use revenueguard_ai.Models.{ExperimentArm, control, treatment}
use revenueguard_ai.Ingestion.Json.{◌>>=◌}
use revenueguard_ai.Experiments.Analyzer.{
  Analysis, Result, analysed, refused, StatisticalTests, rate_of, analyze,
}
use revenueguard_ai.Evals.{BatchEvent, EvaluationRow, Health, evaluate_all}

-- `sum(test(row) for row in rows)`
abbrev pub count : (EvaluationRow → Bool) → List EvaluationRow → ℕ
count test rows = length (filter test rows)

abbrev pub sum_of : (EvaluationRow → ℕ) → List EvaluationRow → ℕ
sum_of f [] = 0
sum_of f (row ∷ rows) = f row + sum_of f rows

abbrev pub is_tp : EvaluationRow → Bool
is_tp row = row.predicted_recoverable && row.actual_recoverable

abbrev pub is_fp : EvaluationRow → Bool
is_fp row = row.predicted_recoverable && not row.actual_recoverable

abbrev pub is_fn : EvaluationRow → Bool
is_fn row = not row.predicted_recoverable && row.actual_recoverable

abbrev pub is_tn : EvaluationRow → Bool
is_tn row = not row.predicted_recoverable && not row.actual_recoverable

abbrev is_control : ExperimentArm → Bool
is_control control = true
is_control treatment = false

abbrev pub in_arm : ExperimentArm → EvaluationRow → Bool
in_arm control row = is_control row.arm
in_arm treatment row = not (is_control row.arm)

abbrev pub recovered_in_arm : ExperimentArm → EvaluationRow → Bool
recovered_in_arm arm row = in_arm arm row && row.simulated_recovered

module _ (float : Floats) where
  open float use {Float, zero, literal, plus, times, quotient, is_zero}

  pub record BatchMetrics : Type 0 where
    pub total_events : ℕ
    pub revenue_at_risk_paise : ℕ
    pub true_positives : ℕ
    pub false_positives : ℕ
    pub false_negatives : ℕ
    pub true_negatives : ℕ
    pub precision : Float
    pub recall : Float
    pub f1 : Float
    pub simulated_recovery_paise : ℕ
    pub simulated_recovery_rate : Float
    pub false_positive_cost_paise : ℕ
    pub experiment : Analysis float

  -- `2 * precision * recall / (precision + recall) if precision + recall else 0.0`
  unfoldable pub f1_of : Float → Float → Option Float
  f1_of precision recall =
      if is_zero (plus precision recall)
      then some zero
      else quotient (times (times (literal 20_000) precision) recall) (plus precision recall)

  -- A refusal is the ValueError that `analyze` raises.
  abbrev pub analysis_or : Result float → Option (Analysis float)
  analysis_or (analysed a) = some a
  analysis_or (refused e) = none

  abbrev pub metrics_of :
      List EvaluationRow → Float → Float → Float → Float → Analysis float → BatchMetrics
  metrics_of rows precision recall f1 rate experiment = record {
    total_events = length rows;
    revenue_at_risk_paise = sum_of (λ row. row.amount_paise) rows;
    true_positives = count is_tp rows;
    false_positives = count is_fp rows;
    false_negatives = count is_fn rows;
    true_negatives = count is_tn rows;
    precision = precision;
    recall = recall;
    f1 = f1;
    simulated_recovery_paise = sum_of (λ row. row.simulated_revenue_paise) rows;
    simulated_recovery_rate = rate;
    false_positive_cost_paise = sum_of (λ row. row.false_positive_cost_paise) rows;
    experiment = experiment;
  }

  module _ (tests : StatisticalTests float) where
    abbrev pub experiment_of : List EvaluationRow → Option (Analysis float)
    experiment_of rows = analysis_or (
        analyze float tests "recovery_agent_v1" (pos (count (recovered_in_arm control) rows))
          (pos (count (in_arm control) rows)) (pos (count (recovered_in_arm treatment) rows))
          (pos (count (in_arm treatment) rows)))

    -- `_calculate_metrics`
    unfoldable pub calculate_metrics : List EvaluationRow → Option BatchMetrics
    calculate_metrics rows = do
      precision ← rate_of float (count is_tp rows) (count is_tp rows + count is_fp rows)
      recall ← rate_of float (count is_tp rows) (count is_tp rows + count is_fn rows)
      f1 ← f1_of precision recall
      experiment ← experiment_of rows
      rate ←
          rate_of float (sum_of (λ row. row.simulated_revenue_paise) rows)
            (sum_of (λ row. row.amount_paise) rows)
      some (metrics_of rows precision recall f1 rate experiment)

    -- `run`, of a loaded batch, up to the writing of its outputs.
    unfoldable pub run :
        (String → ℕ)
        → (BatchEvent → Health → ℕ)
        → List BatchEvent
        → Option (List EvaluationRow × BatchMetrics)
    run md5 scorer events = do
      rows ← evaluate_all md5 scorer events
      metrics ← calculate_metrics rows
      some (rows, metrics)
