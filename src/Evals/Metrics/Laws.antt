-- ===== src/Evals/Metrics/Laws.antt =====
-- What the numbers of an evaluation add up to.
use revenueguard_ai.Common.{
  ℕ, suc, ◌+◌, ◌*◌, ◌≤◌, ◌≡◌, refl, ap, ◌∙◌, inl, inr, Bool-cases, String, Option, some, List, [],
  ◌∷◌, if◌then◌else◌, length, filter, arith,
}
use revenueguard_ai.Common.Int.{pos}
use revenueguard_ai.Common.Floats.{Floats}
use revenueguard_ai.Models.{ExperimentArm, control, treatment}
use revenueguard_ai.Experiments.Analyzer.{StatisticalTests, Analysis, rate_of}
use revenueguard_ai.Experiments.Analyzer.Computed.{rate_of-IsRate}
use revenueguard_ai.Experiments.Analyzer.Laws.{IsReport, analyze-cases}
use revenueguard_ai.Evals.{BatchEvent, EvaluationRow, Health}
use revenueguard_ai.Evals.Laws.{AreRows, evaluate_all-AreRows, bind-some}
use revenueguard_ai.Evals.Metrics.{
  count, sum_of, is_tp, is_fp, is_fn, is_tn, in_arm, recovered_in_arm, BatchMetrics, f1_of,
  metrics_of, analysis_or, experiment_of, calculate_metrics, run,
}

-- The four cells of the confusion matrix, and the two arms, each share out all rows.
confusion-length :
    (rows : List EvaluationRow)
    → count is_tp rows + count is_fp rows + count is_fn rows + count is_tn rows ≡ length rows
unfolding filter
confusion-length [] = refl
confusion-length (row ∷ rows) = ground (arith, confusion-length rows)

arms-length :
    (rows : List EvaluationRow)
    → count (in_arm control) rows + count (in_arm treatment) rows ≡ length rows
unfolding filter
arms-length [] = refl
arms-length (row ∷ rows) = ground (arith, arms-length rows)

recovered_in_arm_le :
    (arm : ExperimentArm) (rows : List EvaluationRow)
    → count (recovered_in_arm arm) rows ≤ count (in_arm arm) rows
unfolding filter
recovered_in_arm_le arm [] = omega arith
recovered_in_arm_le arm (row ∷ rows) = ground (arith, recovered_in_arm_le arm rows)

length-AreRows :
    (es : List BatchEvent) (rows : List EvaluationRow) → AreRows es rows → length rows ≡ length es
length-AreRows [] [] h = refl
length-AreRows [] (row ∷ rows) h = absurd h
length-AreRows (e ∷ es) [] h = absurd h
length-AreRows (e ∷ es) (row ∷ rows) h = ap suc (length-AreRows es rows h.1)

recoveries_le :
    (es : List BatchEvent) (rows : List EvaluationRow)
    → AreRows es rows
    → count (recovered_in_arm control) rows + count (recovered_in_arm treatment) rows
      ≤ count is_tp rows + count is_fn rows
unfolding filter
recoveries_le [] [] h = omega arith
recoveries_le [] (row ∷ rows) h = absurd h
recoveries_le (e ∷ es) [] h = absurd h
recoveries_le (e ∷ es) (row ∷ rows) h = ground (arith, h.0.recoverable, recoveries_le es rows h.1)

revenue_le :
    (es : List BatchEvent) (rows : List EvaluationRow)
    → AreRows es rows
    → sum_of (λ row. row.simulated_revenue_paise) rows ≤ sum_of (λ row. row.amount_paise) rows
revenue_le [] [] h = omega arith
revenue_le [] (row ∷ rows) h = absurd h
revenue_le (e ∷ es) [] h = absurd h
revenue_le (e ∷ es) (row ∷ rows) h = ground (arith, h.0.revenue, revenue_le es rows h.1)

cost_le :
    (es : List BatchEvent) (rows : List EvaluationRow)
    → AreRows es rows
    → sum_of (λ row. row.false_positive_cost_paise) rows ≤ 500 * count is_fp rows
unfolding filter
cost_le [] [] h = omega arith
cost_le [] (row ∷ rows) h = absurd h
cost_le (e ∷ es) [] h = absurd h
cost_le (e ∷ es) (row ∷ rows) h = ground (arith, h.0.cost, cost_le es rows h.1)

module _ (float : Floats) where
  open float use {Float, zero, literal, plus, times, quotient, is_zero, IsNonnegative, IsAtMostOne}

  f1_of-some : (p r : Float) → (q : Float) × (f1_of float p r ≡ some q)
  unfolding f1_of
  f1_of-some p r = elim (Bool-cases (is_zero (plus p r))) [
    | inl none_there ↦ (zero, ap (λ b. if b then some zero else f1) none_there)
    | inr some_there ↦
        let (q, e) =
          float.quotient-nonzero (times (times (literal 20_000) p) r) (plus p r) some_there in
        (q, ap (λ b. if b then some zero else f1) some_there ∙ e)
  ]
    where
      f1 : Option Float
      f1 = quotient (times (times (literal 20_000) p) r) (plus p r)

  -- The numbers of an evaluation of `n` events.
  pub record AreMetrics (n : ℕ) (m : BatchMetrics float) : Type 0 where
    pub whole : m.total_events ≡ n
    pub confusion : m.true_positives + m.false_positives + m.false_negatives + m.true_negatives ≡ n
    pub precision :
        rate_of float m.true_positives (m.true_positives + m.false_positives) ≡ some m.precision
    pub recall :
        rate_of float m.true_positives (m.true_positives + m.false_negatives) ≡ some m.recall
    pub precision-IsRate : IsNonnegative m.precision × IsAtMostOne m.precision
    pub recall-IsRate : IsNonnegative m.recall × IsAtMostOne m.recall
    pub recovered_money : m.simulated_recovery_paise ≤ m.revenue_at_risk_paise
    pub recovery_rate-IsRate :
        IsNonnegative m.simulated_recovery_rate × IsAtMostOne m.simulated_recovery_rate
    pub cost : m.false_positive_cost_paise ≤ 500 * m.false_positives
    pub arms : m.experiment.sample_size ≡ n
    pub recoveries :
        m.experiment.control.recovered + m.experiment.variant.recovered
        ≤ m.true_positives + m.false_negatives

  module _ (tests : StatisticalTests float) where
    experiment_of-IsReport :
        (rows : List EvaluationRow)
        → (a : Analysis float) × (experiment_of float tests rows ≡ some a)
          × IsReport float tests "recovery_agent_v1"
              (count (recovered_in_arm control) rows)
              (count (in_arm control) rows)
              (count (recovered_in_arm treatment) rows)
              (count (in_arm treatment) rows)
              a
    experiment_of-IsReport rows =
        let (a, e, r) =
          ((analyze-cases float tests "recovery_agent_v1" (pos _) (pos _) (pos _) (pos _)).1
              (count (recovered_in_arm control) rows) (count (in_arm control) rows)
              (count (recovered_in_arm treatment) rows) (count (in_arm treatment) rows) refl refl
              refl refl).1
            (recovered_in_arm_le control rows) (recovered_in_arm_le treatment rows) in
        (a, ap (λ x. analysis_or float x) e, r)

    calculate_metrics-AreMetrics :
        (es : List BatchEvent) (rows : List EvaluationRow)
        → AreRows es rows
        → (m : BatchMetrics float) × (calculate_metrics float tests rows ≡ some m)
          × AreMetrics (length es) m
    unfolding calculate_metrics
    calculate_metrics-AreMetrics es rows h =
        let (p, ep, p_low, p_high) =
          rate_of-IsRate float (count is_tp rows) (count is_tp rows + count is_fp rows)
            (omega arith) in
        let (r, er, r_low, r_high) =
          rate_of-IsRate float (count is_tp rows) (count is_tp rows + count is_fn rows)
            (omega arith) in
        let (f, ef) = f1_of-some p r in
        let (a, ea, report) = experiment_of-IsReport rows in
        let (q, eq, q_low, q_high) =
          rate_of-IsRate float (sum_of (λ row. row.simulated_revenue_paise) rows)
            (sum_of (λ row. row.amount_paise) rows) (revenue_le es rows h) in
        (
          metrics_of float rows p r f q a,
          bind-some _ ep ∙ bind-some _ er ∙ bind-some _ ef ∙ bind-some _ ea ∙ bind-some _ eq,
          record {
            whole = length-AreRows es rows h;
            confusion = confusion-length rows ∙ length-AreRows es rows h;
            precision = ep;
            recall = er;
            precision-IsRate = (p_low, p_high);
            recall-IsRate = (r_low, r_high);
            recovered_money = revenue_le es rows h;
            recovery_rate-IsRate = (q_low, q_high);
            cost = cost_le es rows h;
            arms = report.whole_sample ∙ arms-length rows ∙ length-AreRows es rows h;
            recoveries =
                omega (
                  arith,
                  recoveries_le es rows h,
                  report.control_counts.0,
                  report.variant_counts.0,
                );
          },
        )

-- An evaluation of a batch always ends with one row for each event, in their order, and its numbers.
-- Only a recoverable payment is recovered, never by an action that gives up, and a customer of the
-- treatment arm who has opted out is left alone. The four cells of the confusion matrix, and the two
-- arms, share out all events; precision, recall and the rate of the recovered money lie between 0 and 1;
-- no more money is recovered than was at risk, no more recoveries are counted than there are recoverable
-- payments, and a false positive costs at most 500.
pub run-AreMetrics :
    (float : Floats) (tests : StatisticalTests float) (md5 : String → ℕ)
    (scorer : BatchEvent → Health → ℕ) (events : List BatchEvent)
    → (rows : List EvaluationRow) × (m : BatchMetrics float) × (run float tests md5 scorer events
        ≡ some (rows, m))
      × AreRows events rows
      × AreMetrics float (length events) m
unfolding run
run-AreMetrics float tests md5 scorer events =
    let (rows, er, are_rows) = evaluate_all-AreRows md5 scorer events in
    let (m, em, are_metrics) = calculate_metrics-AreMetrics float tests events rows are_rows in
    (rows, m, bind-some _ er ∙ bind-some _ em, are_rows, are_metrics)
