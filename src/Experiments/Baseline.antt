-- ===== src/Experiments/Baseline.antt =====
-- backend/experiments/baseline.py: the fixed retry policy of the control arm.
use revenueguard_ai.Common.{ℕ, zero, suc, ◌*◌, List, [], ◌∷◌, some, String, length, if◌then◌else◌}
use revenueguard_ai.Common.Int.{ℤ, pos, leb_ℤ, clamp_zero}
use revenueguard_ai.Models.{StrategyDecision, decision, smart_retry, stop, email}

-- RETRY_SCHEDULE, in seconds.
abbrev pub retry_schedule : List ℕ
retry_schedule = 15 * 60 ∷ (6 * 3600) ∷ (24 * 3600) ∷ []

-- `RETRY_SCHEDULE[i]`, read only below the length.
abbrev get_or : List ℕ → ℕ → ℕ → ℕ
get_or [] i d = d
get_or (x ∷ xs) zero d = x
get_or (x ∷ xs) (suc i) d = get_or xs i d

-- `f"Rule-based retry #{n + 1}"`, for the three retries that there are.
abbrev retry_text : ℕ → String
retry_text zero = "Rule-based retry #1"
retry_text (suc zero) = "Rule-based retry #2"
retry_text _ = "Rule-based retry #3"

unfoldable pub baseline_decide : ℤ → StrategyDecision
baseline_decide retry_count =
    if leb_ℤ (pos (length retry_schedule)) retry_count
    then record (decision stop "Rule-based retry limit reached") {
      stopping_reason = some "Maximum of three baseline retries reached";
    }
    else record (decision smart_retry (retry_text (clamp_zero retry_count))) {
      retry_delay_seconds = pos (get_or retry_schedule (clamp_zero retry_count) 0);
      channel = some email;
    }
