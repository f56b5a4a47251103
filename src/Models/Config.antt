-- ===== src/Models/Config.antt =====
-- backend/config.py: the settings that decide something, as the numbers that a deployment sets.
use revenueguard_ai.Common.{ℕ, Bool, false}

pub record Settings : Type 0 where
  pub high_value_threshold : ℕ
  pub max_retry_attempts : ℕ
  pub cooldown_hours : ℕ
  pub quiet_hours_start : ℕ
  pub quiet_hours_end : ℕ
  pub experiment_variant_pct : ℕ
  -- Whether a webhook secret, and an address for approvals, are configured.
  pub webhook_secret_set : Bool
  pub approval_webhook_set : Bool

abbrev pub default_settings : Settings
default_settings = record {
  high_value_threshold = 5_000_000;
  max_retry_attempts = 3;
  cooldown_hours = 24;
  quiet_hours_start = 21;
  quiet_hours_end = 9;
  experiment_variant_pct = 20;
  webhook_secret_set = false;
  approval_webhook_set = false;
}
