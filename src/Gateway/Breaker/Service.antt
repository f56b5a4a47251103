-- ===== src/Gateway/Breaker/Service.antt =====
-- backend/gateway_health/circuit_breaker.py: the breaker on Redis, a state under each key.
use Prim.Native.String.{◌++◌}
use revenueguard_ai.Common.{
  ℕ, ◌+◌, ◌-◌, ◌*◌, ◌/◌, max, String, Bool, Option, none, some, leb, if◌then◌else◌, ◌≡◌, ◌≢◌,
}
use revenueguard_ai.Models.{
  GatewayHealthState, closed, open_state, half_open, GatewayHealthSnapshot,
}
use revenueguard_ai.Models.Time.{second_us}
use revenueguard_ai.Gateway.Stats.{GatewayStats}
use revenueguard_ai.Gateway.Breaker.{
  BreakerConfig, BreakerState, new_state, nonzero_or, opened_at_or, cooldown_of, decide, stamped,
  is_half_open, after_probe,
}

-- The values that Redis returns for a key: a text that does not parse, or a state.
pub data Raw : Type 0 where
  undecodable : Raw
  decoded : BreakerState → Raw

-- Redis as the breaker relies on it: a key reads as what was last written to it, through
-- `json.dumps` and `json.loads`, and a write leaves the other keys alone.
pub record KeyValueStore : Type 1 where
  pub Store : Type 0
  pub fetch : Store → String → Option Raw
  pub put : Store → String → BreakerState → Store
  pub fetch-put_self :
      (r : Store) (k : String) (s : BreakerState) → fetch (put r k s) k ≡ some (decoded s)
  pub fetch-put_ne :
      (r : Store) (k j : String) (s : BreakerState) → j ≢ k → fetch (put r k s) j ≡ fetch r j

unfoldable pub key : String → String → String
key bank rail = "cb:" ++ (bank ++ (":" ++ rail))

abbrev pub confidence : BreakerConfig → ℕ → String
confidence cfg n =
    if leb cfg.min_samples n
    then "HIGH"
    else if leb (max 10 (cfg.min_samples / 2)) n
    then "MEDIUM"
    else "LOW"

abbrev action_for : GatewayHealthState → String
action_for closed = "RETRY_NOW"
action_for open_state = "DEFER"
action_for half_open = "PROBE"

-- `max(0, int(cooldown - (time.time() - opened_at)))`, for an open breaker.
unfoldable pub seconds_left : BreakerConfig → ℕ → BreakerState → ℕ
seconds_left cfg now s = (opened_at_or s now + cooldown_of cfg s * second_us - now) / second_us

abbrev pub retry_after : GatewayHealthState → BreakerConfig → ℕ → BreakerState → ℕ
retry_after open_state cfg now s = seconds_left cfg now s
retry_after _ cfg now s = 0

-- The snapshot that `get_health` builds: the aggregator's statistics hold no baseline.
unfoldable pub snapshot :
    BreakerConfig
    → ℕ
    → String
    → String
    → GatewayStats
    → GatewayHealthState
    → BreakerState
    → GatewayHealthSnapshot
snapshot cfg now bank rail stats state s = record {
  bank = bank;
  rail = rail;
  state = state;
  success_rate = stats.success_rate;
  technical_failure_rate = stats.technical_failure_rate;
  business_decline_rate = stats.business_decline_rate;
  timeout_rate = stats.timeout_rate;
  baseline_success_rate = 950_000;
  sample_size = stats.sample_size;
  window_minutes = nonzero_or stats.window_minutes 15;
  recommended_action = action_for state;
  retry_after_seconds = retry_after state cfg now s;
  confidence = confidence cfg stats.sample_size;
}

module _ (redis : KeyValueStore) (cfg : BreakerConfig) where
  open redis use {Store, fetch, put}

  -- `_get_state`: a missing or damaged entry reads as a new closed breaker.
  unfoldable pub get_state : ℕ → String → String → Store → BreakerState
  get_state now bank rail r = elim (fetch r (key bank rail)) [
    | none ↦ new_state closed now cfg.cooldown_seconds
    | some undecodable ↦ new_state closed now cfg.cooldown_seconds
    | some (decoded s) ↦ s
  ]

  abbrev pub write : String → Option BreakerState → ℕ → Store → Store
  write k none saved_at r = r
  write k (some s) saved_at r = put r k (stamped s saved_at)

  unfoldable pub evaluate :
      (read_at now saved_at : ℕ)
      → String
      → String
      → GatewayStats
      → Store
      → Store × GatewayHealthState
  evaluate read_at now saved_at bank rail stats r =
      let (save, state) = decide cfg now stats (get_state read_at bank rail r) in
      (write (key bank rail) save saved_at r, state)

  -- `record_probe_result`: outside the half-open state it writes nothing.
  unfoldable pub record_probe_result :
      (read_at now saved_at : ℕ) → String → String → Bool → Store → Store
  record_probe_result read_at now saved_at bank rail success r =
      let s = get_state read_at bank rail r in
      if is_half_open s.state then put r (key bank rail) (after_probe success now saved_at s) else r

  -- `get_health`, its last readings of the clock taken as one.
  unfoldable pub get_health :
      (read_at now saved_at asked_at : ℕ)
      → String
      → String
      → GatewayStats
      → Store
      → Store × GatewayHealthSnapshot
  get_health read_at now saved_at asked_at bank rail stats r =
      let (r', state) = evaluate read_at now saved_at bank rail stats r in
      (r', snapshot cfg asked_at bank rail stats state (get_state asked_at bank rail r'))
