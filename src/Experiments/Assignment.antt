-- ===== src/Experiments/Assignment.antt =====
-- backend/experiments/assignment.py: assign_experiment_arm. `md5` is the digest of a text, as a
-- number.
use Prim.Native.String.{◌++◌}
use revenueguard_ai.Common.{
  ℕ, ◌%◌, ◌≤◌, ◌≡◌, String, Outcome, returned, raised, bad_value, ltb, leb, if◌then◌else◌, arith,
}
use revenueguard_ai.Models.{ExperimentArm, control, treatment}

unfoldable pub bucket_of : (String → ℕ) → String → String → ℕ
bucket_of md5 experiment_id case_id = md5 (experiment_id ++ (":" ++ case_id)) % 100

-- The percentage is checked first; the lower bound holds of every number.
unfoldable pub assign_experiment_arm : (String → ℕ) → String → String → ℕ → Outcome ExperimentArm
assign_experiment_arm md5 case_id experiment_id variant_pct =
    if leb variant_pct 100
    then returned
        (if ltb (bucket_of md5 experiment_id case_id) variant_pct then treatment else control)
    else raised bad_value

-- Raising the percentage never takes a case out of the treatment arm.
pub assign_experiment_arm_mono :
    (md5 : String → ℕ) (case_id experiment_id : String) (p q : ℕ)
    → p ≤ q
    → q ≤ 100
    → assign_experiment_arm md5 case_id experiment_id p ≡ returned treatment
    → assign_experiment_arm md5 case_id experiment_id q ≡ returned treatment
unfolding assign_experiment_arm
assign_experiment_arm_mono md5 case_id experiment_id p q pq q100 h = ground arith
