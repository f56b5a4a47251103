-- ===== src/Api/Results.antt =====
-- backend/api/main.py: experiment_results, the analysis of the cases of both arms.
use revenueguard_ai.Common.{ℕ, ◌==◌, ◌&&◌, String, Bool, Option, none, some, List, if◌then◌else◌}
use revenueguard_ai.Common.Int.{pos}
use revenueguard_ai.Common.Floats.{Floats}
use revenueguard_ai.Models.{ExperimentArm, control, treatment}
use revenueguard_ai.Database.{RecoveryCase, Database}
use revenueguard_ai.Experiments.Analyzer.{
  StatisticalTests, Analysis, Result, analysed, refused, analyze,
}
use revenueguard_ai.Experiments.Default.{Experiment, experiment_by}
use revenueguard_ai.Api.Metrics.{total_in, recovered_in}

-- The group of an arm, which is there when it has a case.
unfoldable pub group_of : ExperimentArm → List RecoveryCase → Option (ℕ × ℕ)
group_of arm cases =
    if total_in (some arm) cases == 0
    then none
    else some (total_in (some arm) cases, recovered_in (some arm) cases)

-- `grouped.get(arm, (0, 0))`
unfoldable pub counts_of : ExperimentArm → List RecoveryCase → ℕ × ℕ
unfolding group_of
counts_of arm cases = elim (group_of arm cases) [ none ↦ (0, 0) | some counts ↦ counts ]

module _ (float : Floats) where
  pub data ResultsReply : Type 0 where
    results : Analysis float → ResultsReply
    not_found : String → ResultsReply
    server_error : ResultsReply

  -- The numbers of the dictionary, which the JSON response refuses when one of them is not finite.
  abbrev pub all_finite : Analysis float → Bool
  all_finite a =
      float.is_finite a.control.recovery_rate
      && float.is_finite a.variant.recovery_rate
      && float.is_finite a.absolute_lift
      && float.is_finite a.relative_lift
      && float.is_finite a.ci_lower
      && float.is_finite a.ci_upper
      && float.is_finite a.z_statistic
      && float.is_finite a.p_value
      && float.is_finite a.chi_square
      && float.is_finite a.srm_p_value

  -- The response: a ValueError is a server error too.
  abbrev pub response_of : Result float → ResultsReply
  response_of (refused e) = server_error
  response_of (analysed a) = if all_finite a then results a else server_error

  -- The groups are read only for an experiment that is there.
  abbrev pub results_for :
      StatisticalTests float → String → Option Experiment → ℕ × ℕ → ℕ × ℕ → ResultsReply
  results_for tests experiment_id none control_group variant_group =
      not_found "Experiment not found"
  results_for tests experiment_id (some e) control_group variant_group =
      let (control_total, control_recovered) = control_group in
      let (variant_total, variant_recovered) = variant_group in
      response_of (
        analyze float tests experiment_id (pos control_recovered) (pos control_total)
          (pos variant_recovered) (pos variant_total))

  unfoldable pub experiment_results :
      StatisticalTests float → String → List Experiment → Database → ResultsReply
  experiment_results tests experiment_id experiments db =
      results_for tests experiment_id (experiment_by experiment_id experiments)
        (counts_of control db.cases) (counts_of treatment db.cases)
