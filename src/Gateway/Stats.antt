-- ===== src/Gateway/Stats.antt =====
-- The dictionary that GatewayHealthAggregator.get_stats returns
-- (backend/gateway_health/aggregator.py).
use revenueguard_ai.Common.{ℕ, String}

pub record GatewayStats : Type 0 where
  pub bank : String
  pub rail : String
  pub window_minutes : ℕ
  pub total_attempts : ℕ
  pub success_rate : ℕ
  pub technical_failure_rate : ℕ
  pub business_decline_rate : ℕ
  pub timeout_rate : ℕ
  pub sample_size : ℕ
