-- ===== src/Gateway/Window/Rates.antt =====
-- backend/gateway_health/aggregator.py: get_stats, of the counts, and `_rate`.
use native.Mathlib.Nat.{mul-le-mul_right}
use revenueguard_ai.Common.{
  ℕ, ◌+◌, ◌*◌, ◌≤◌, ◌<◌, ◌≡◌, String, arith, inl, inr, Bool-cases, leb, true,
}
use revenueguard_ai.Gateway.Stats.{GatewayStats}
use revenueguard_ai.Gateway.Window.{
  GatewayOutcome, success, technical_decline, business_decline, timeout, Window, five, fifteen,
  sixty, SortedSets, count_of,
}

-- `_rate`, in millionths: the rounded quotient is off by less than one of them, and 0 of a total of 0.
pub record Rates : Type 0 where
  pub rate : ℕ → ℕ → ℕ
  pub rate_zero : (n : ℕ) → rate n 0 ≡ 0
  pub rate_high : (n total : ℕ) → n ≤ total → rate n total * total ≤ n * 1_000_000 + total
  pub rate_low : (n total : ℕ) → n ≤ total → n * 1_000_000 ≤ rate n total * total + total

abbrev pub minutes_of : Window → ℕ
minutes_of five = 5
minutes_of fifteen = 15
minutes_of sixty = 60

-- The dictionary made of the four counts.
unfoldable pub stats_of : Rates → String → String → Window → (GatewayOutcome → ℕ) → GatewayStats
stats_of rates bank rail w counts =
    let total =
      counts success + counts technical_decline + counts business_decline + counts timeout in
    record {
      bank = bank;
      rail = rail;
      window_minutes = minutes_of w;
      total_attempts = total;
      success_rate = rates.rate (counts success) total;
      technical_failure_rate = rates.rate (counts technical_decline + counts timeout) total;
      business_decline_rate = rates.rate (counts business_decline) total;
      timeout_rate = rates.rate (counts timeout) total;
      sample_size = total;
    }

-- `get_stats`; the window's old entries are removed before the counts are read.
unfoldable pub get_stats :
    (redis : SortedSets) → Rates → String → String → Window → ℕ → redis.Store → GatewayStats
get_stats redis rates bank rail w now r =
    stats_of rates bank rail w (count_of redis bank rail now w r)

-- With at least 60 failures and at most 139 other outcomes, the rate of failures exceeds 0.3.
pub rate_above :
    (rates : Rates) (failures others : ℕ)
    → 60 ≤ failures
    → others ≤ 139
    → 300_000 < rates.rate failures (failures + others)
rate_above rates failures others many few =
    elim (Bool-cases (leb (rates.rate failures (failures + others)) 300_000)) [
      | inl low ↦ absurd (
          omega (
            arith,
            rates.rate_low failures (failures + others) (omega arith),
            mul-le-mul_right (failures + others) (bound low),
          ))
      | inr high ↦ ground arith
    ]
  where
    bound :
        leb (rates.rate failures (failures + others)) 300_000 ≡ true
        → rates.rate failures (failures + others) ≤ 300_000
    bound low = ground arith
