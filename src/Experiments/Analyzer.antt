-- ===== src/Experiments/Analyzer.antt =====
-- backend/experiments/analyzer.py: ExperimentAnalyzer. The two tests of scipy and statsmodels, each a
-- statistic and a p-value, are parameters.
pub mod Computed
pub mod Laws
use revenueguard_ai.Common.{
  ℕ, ◌+◌, ◌==◌, String, Bool, true, false, ◌&&◌, ◌||◌, not, Option, none, some, if◌then◌else◌,
}
use revenueguard_ai.Common.Int.{ℤ, pos, ltb_ℤ, clamp_zero}
use revenueguard_ai.Common.Floats.{Floats}
use revenueguard_ai.Ingestion.Json.{◌>>=◌}

-- `ValueError`s of `_validate_counts`, and what the arithmetic could raise.
pub data AnalysisError : Type 0 where
  negative_count recovered_above_total arithmetic_error : AnalysisError

module _ (float : Floats) where
  open float use {
    Float, zero, one, literal, of_ℕ, plus, minus, times, quotient, sqrt, is_zero, less,
  }

  -- `chisquare(observed, f_exp=expected)` and
  -- `proportions_ztest([a, b], [m, n], alternative="larger")`
  pub record StatisticalTests : Type 0 where
    pub chisquare : ℕ × ℕ → Float × Float → Float × Float
    pub proportions_ztest : ℕ × ℕ → ℕ × ℕ → Float × Float

  pub record Arm : Type 0 where
    pub recovered : ℕ
    pub total : ℕ
    pub recovery_rate : Float

  pub record Analysis : Type 0 where
    pub experiment_id : String
    pub control : Arm
    pub variant : Arm
    pub sample_size : ℕ
    pub absolute_lift : Float
    pub relative_lift : Float
    pub ci_lower : Float
    pub ci_upper : Float
    pub z_statistic : Float
    pub p_value : Float
    pub is_significant : Bool
    pub chi_square : Float
    pub srm_p_value : Float
    pub srm_pass : Bool

  pub data Result : Type 0 where
    analysed : Analysis → Result
    refused : AnalysisError → Result

  -- `recovered / total if total else 0.0`
  unfoldable pub rate_of : ℕ → ℕ → Option Float
  rate_of recovered total = if total == 0 then some zero else quotient (of_ℕ recovered) (of_ℕ total)

  -- `_sample_ratio_metrics`
  unfoldable pub sample_ratio_metrics : StatisticalTests → ℕ → ℕ → Float × Float
  sample_ratio_metrics tests control_total variant_total =
      let total = of_ℕ (control_total + variant_total) in
      if control_total + variant_total == 0
      then (zero, one)
      else tests.chisquare (control_total, variant_total)
          (times total (literal 8_000), times total (literal 2_000))

  -- `_recovery_test`
  unfoldable pub recovery_test : StatisticalTests → ℕ → ℕ → ℕ → ℕ → Float × Float
  recovery_test tests control_recovered control_total variant_recovered variant_total =
      if control_total == 0 || variant_total == 0
      then (zero, one)
      else tests.proportions_ztest (variant_recovered, control_recovered)
          (variant_total, control_total)

  -- The variance of a rate over its total.
  abbrev pub variance : Float → ℕ → Option Float
  variance rate total = quotient (times rate (minus one rate)) (of_ℕ total)

  -- `_standard_error`
  unfoldable pub standard_error : Float → ℕ → Float → ℕ → Option Float
  standard_error control_rate control_total variant_rate variant_total =
      if control_total == 0 || variant_total == 0 then some zero else do
        a ← variance control_rate control_total
        b ← variance variant_rate variant_total
        sqrt (plus a b)

  -- `absolute_lift / control_rate if control_rate else 0.0`
  unfoldable pub relative_of : Float → Float → Option Float
  relative_of lift control_rate =
      if is_zero control_rate then some zero else quotient lift control_rate

  abbrev pub arm_of : ℕ → ℕ → Float → Arm
  arm_of recovered total rate = record {
    recovered = recovered;
    total = total;
    recovery_rate = rate;
  }

  -- The dictionary that is returned, of the numbers computed before it.
  unfoldable pub report : StatisticalTests → String → Arm → Arm → Float → Float → Analysis
  report tests experiment_id control variant relative_lift error =
      let lift = minus variant.recovery_rate control.recovery_rate in
      let (chi_square, srm_p_value) = sample_ratio_metrics tests control.total variant.total in
      let (z, p) =
        recovery_test tests control.recovered control.total variant.recovered variant.total in
      record {
        experiment_id = experiment_id;
        control = control;
        variant = variant;
        sample_size = control.total + variant.total;
        absolute_lift = lift;
        relative_lift = relative_lift;
        ci_lower = minus lift (times (literal 19_600) error);
        ci_upper = plus lift (times (literal 19_600) error);
        z_statistic = z;
        p_value = p;
        is_significant = less p (literal 500) && less zero lift;
        chi_square = chi_square;
        srm_p_value = srm_p_value;
        srm_pass = less (literal 100) srm_p_value;
      }

  -- What follows the validation.
  unfoldable pub analyze_counts : StatisticalTests → String → ℕ → ℕ → ℕ → ℕ → Option Analysis
  analyze_counts tests experiment_id control_recovered control_total variant_recovered
        variant_total =
      do
        control_rate ← rate_of control_recovered control_total
        variant_rate ← rate_of variant_recovered variant_total
        relative_lift ← relative_of (minus variant_rate control_rate) control_rate
        error ← standard_error control_rate control_total variant_rate variant_total
        some (
            report tests experiment_id (arm_of control_recovered control_total control_rate)
              (arm_of variant_recovered variant_total variant_rate) relative_lift error)

  -- `_validate_counts`, of integers.
  unfoldable pub validate_counts : ℤ → ℤ → ℤ → ℤ → Option AnalysisError
  validate_counts control_recovered control_total variant_recovered variant_total =
      if ltb_ℤ control_recovered (pos 0)
        || ltb_ℤ control_total (pos 0)
        || ltb_ℤ variant_recovered (pos 0)
        || ltb_ℤ variant_total (pos 0)
      then some negative_count
      else if ltb_ℤ control_total control_recovered || ltb_ℤ variant_total variant_recovered
      then some recovered_above_total
      else none

  abbrev pub result_or : Option Analysis → Result
  result_or none = refused arithmetic_error
  result_or (some a) = analysed a

  abbrev pub unless_invalid : Option AnalysisError → Option Analysis → Result
  unless_invalid (some e) a = refused e
  unless_invalid none a = result_or a

  -- `analyze`
  unfoldable pub analyze : StatisticalTests → String → ℤ → ℤ → ℤ → ℤ → Result
  analyze tests experiment_id control_recovered control_total variant_recovered variant_total =
      unless_invalid
        (validate_counts control_recovered control_total variant_recovered variant_total)
        (analyze_counts tests experiment_id (clamp_zero control_recovered)
          (clamp_zero control_total) (clamp_zero variant_recovered) (clamp_zero variant_total))
