-- ===== src/Api/Metrics.antt =====
-- backend/api/main.py: metrics. `none` is an exception of a division.
pub mod Laws
use revenueguard_ai.Common.{
  ℕ, ◌+◌, ◌==◌, String, Bool, true, false, ◌&&◌, Option, none, some, List, [], ◌∷◌, if◌then◌else◌,
  length, filter,
}
use revenueguard_ai.Common.Int.{ℤ, pos, ◌+ℤ◌}
use revenueguard_ai.Common.Floats.{Floats}
use revenueguard_ai.Models.{EventStatus, recovered, ExperimentArm, control, treatment, arm_value}
use revenueguard_ai.Database.{RecoveryCase, Database}
use revenueguard_ai.Ingestion.Json.{◌>>=◌}
use revenueguard_ai.Experiments.Analyzer.{rate_of}

-- `RecoveryCase.status == EventStatus.RECOVERED.value`
abbrev pub is_recovered_status : EventStatus → Bool
is_recovered_status recovered = true
is_recovered_status _ = false

abbrev pub is_recovered : RecoveryCase → Bool
is_recovered c = is_recovered_status c.status

-- The group of a case: the rows whose column is null are one group.
abbrev pub same_arm : Option ExperimentArm → Option ExperimentArm → Bool
same_arm none none = true
same_arm (some control) (some control) = true
same_arm (some treatment) (some treatment) = true
same_arm _ _ = false

-- `func.count()` and the sum of `case((status == recovered, 1), else_=0)`, of a group.
unfoldable pub total_in : Option ExperimentArm → List RecoveryCase → ℕ
total_in arm cases = length (filter (λ c. same_arm c.experiment_arm arm) cases)

unfoldable pub recovered_in : Option ExperimentArm → List RecoveryCase → ℕ
recovered_in arm cases =
    length (filter (λ c. same_arm c.experiment_arm arm && is_recovered c) cases)

-- `func.coalesce(func.sum(column), 0)`
abbrev pub sum_amount : List RecoveryCase → ℤ
sum_amount [] = pos 0
sum_amount (c ∷ cases) = c.amount_paise +ℤ sum_amount cases

-- A sum leaves the nulls out.
abbrev pub amount_or_zero : Option ℕ → ℕ
amount_or_zero none = 0
amount_or_zero (some n) = n

abbrev pub sum_recovered : List RecoveryCase → ℕ
sum_recovered [] = 0
sum_recovered (c ∷ cases) = amount_or_zero c.recovered_amount_paise + sum_recovered cases

-- `arm or "unassigned"`
abbrev arm_name : Option ExperimentArm → String
arm_name none = "unassigned"
arm_name (some arm) = arm_value arm

module _ (float : Floats) where
  open float use {Float}

  pub record ArmMetrics : Type 0 where
    pub arm : String
    pub total : ℕ
    pub recovered : ℕ
    pub recovery_rate : Float

  pub record Metrics : Type 0 where
    pub total_events : ℕ
    pub revenue_at_risk_paise : ℤ
    pub revenue_recovered_paise : ℕ
    pub recovery_rate : Float
    pub by_experiment_arm : List ArmMetrics

  unfoldable pub arm_metrics : Option ExperimentArm → List RecoveryCase → Option ArmMetrics
  arm_metrics arm cases = do
    rate ← rate_of float (recovered_in arm cases) (total_in arm cases)
    some (record {
      arm = arm_name arm;
      total = total_in arm cases;
      recovered = recovered_in arm cases;
      recovery_rate = rate;
    })

  -- `GROUP BY` gives the groups that have rows.
  unfoldable pub group_by :
      List (Option ExperimentArm) → List RecoveryCase → Option (List ArmMetrics)
  group_by [] cases = some []
  group_by (arm ∷ arms) cases = do
    rest ← group_by arms cases
    entry ← arm_metrics arm cases
    some (if total_in arm cases == 0 then rest else entry ∷ rest)

  abbrev pub all_arms : List (Option ExperimentArm)
  all_arms = none ∷ some control ∷ some treatment ∷ []

  unfoldable pub metrics : Database → Option Metrics
  metrics db = do
    by_arm ← group_by all_arms db.cases
    rate ← rate_of float (length (filter is_recovered db.cases)) (length db.cases)
    some (record {
      total_events = length db.cases;
      revenue_at_risk_paise = sum_amount db.cases;
      revenue_recovered_paise = sum_recovered db.cases;
      recovery_rate = rate;
      by_experiment_arm = by_arm;
    })
