-- ===== src/Ml/Scoring.antt =====
-- backend/ml/triage_model.py: what TriageScorer.score makes of the model's outputs. A probability is
-- in millionths.
pub mod Laws
use revenueguard_ai.Common.{
  ℕ, ◌*◌, String, Bool, true, false, ◌&&◌, ◌||◌, Option, none, some, List, [], ◌∷◌, map,
  if◌then◌else◌, str_eq, ltb,
}
use revenueguard_ai.Models.{Priority, critical, high, medium, low}
use revenueguard_ai.Ingestion.Json.{◌>>=◌}

-- `_priority`
unfoldable pub priority : ℕ → ℕ → Priority
priority probability amount_paise =
    if ltb 700_000 probability && ltb 1_000_000 amount_paise
    then critical
    else if ltb 500_000 probability && ltb 100_000 amount_paise
    then high
    else if ltb 300_000 probability
    then medium
    else low

-- FEATURE_NAMES
abbrev pub feature_names : List String
feature_names =
    "amount_paise" ∷ "amount_log" ∷ "amount_bucket" ∷ "failure_category" ∷ "failure_source"
    ∷ "payment_method" ∷ "bank_encoded" ∷ "error_reason_encoded" ∷ "hour_of_day" ∷ "day_of_week"
    ∷ "is_peak_hours" ∷ "customer_lifetime_value_log" ∷ "customer_total_transactions"
    ∷ "customer_failed_transactions" ∷ "customer_failure_rate" ∷ "customer_opted_out"
    ∷ "gateway_health_score" ∷ "gateway_is_degraded" ∷ "prior_retry_count" ∷ []

-- REASON_CODE_BY_FEATURE
abbrev pub reason_codes : List (String × String)
reason_codes =
    ("prior_retry_count", "RC01")
    ∷ ("customer_failed_transactions", "RC01")
    ∷ ("customer_failure_rate", "RC01")
    ∷ ("hour_of_day", "RC01")
    ∷ ("day_of_week", "RC01")
    ∷ ("is_peak_hours", "RC01")
    ∷ ("gateway_health_score", "RC02")
    ∷ ("gateway_is_degraded", "RC02")
    ∷ ("failure_category", "RC02")
    ∷ ("customer_total_transactions", "RC03")
    ∷ ("customer_lifetime_value_log", "RC03")
    ∷ ("customer_opted_out", "RC03")
    ∷ ("amount_paise", "RC04")
    ∷ ("amount_log", "RC04")
    ∷ ("amount_bucket", "RC04")
    ∷ ("payment_method", "RC05")
    ∷ ("bank_encoded", "RC05")
    ∷ ("error_reason_encoded", "RC05")
    ∷ ("failure_source", "RC05")
    ∷ []

-- `table[key]`, where `none` is a KeyError.
abbrev pub entry_of : List (String × String) → String → Option String
entry_of [] key = none
entry_of ((k, v) ∷ rest) key =
    let found = entry_of rest key in if str_eq k key then some v else found

abbrev pub has : String → List String → Bool
has s [] = false
has s (t ∷ ts) = str_eq t s || has s ts

-- `list(dict.fromkeys(values))`: each value once, where it stands first.
unfoldable pub distinct_from : List String → List String → List String
distinct_from seen [] = []
distinct_from seen (s ∷ ss) =
    let skipped = distinct_from seen ss in
    let kept = distinct_from (s ∷ seen) ss in if has s seen then skipped else s ∷ kept

-- The codes of the features that are ranked highest, whose names are given in that order.
abbrev pub codes_of : List String → Option (List String)
codes_of [] = some []
codes_of (f ∷ fs) = do code ← entry_of reason_codes f; rest ← codes_of fs; some (code ∷ rest)

-- `reason_codes` of `score`
unfoldable pub ranked_reason_codes : List String → Option (List String)
unfolding distinct_from
ranked_reason_codes features = do codes ← codes_of features; some (distinct_from [] codes)
