-- ===== src/Gateway/Breaker.antt =====
-- backend/gateway_health/circuit_breaker.py: GatewayCircuitBreaker. Times are microseconds, rates are
-- millionths, and each reading of the clock is an argument.
pub mod Decide
pub mod Rounds
pub mod Service
pub mod Stored
use Prim.Native.String.{◌++◌}
use revenueguard_ai.Common.{
  ℕ, ◌+◌, ◌-◌, ◌*◌, ◌/◌, max, String, Bool, true, false, ◌&&◌, Option, none, some, ltb, leb, ◌==◌,
  if◌then◌else◌, ◌≡◌, ◌≢◌,
}
use revenueguard_ai.Models.{
  GatewayHealthState, closed, open_state, half_open, GatewayHealthSnapshot,
}
use revenueguard_ai.Models.Time.{second_us}
use revenueguard_ai.Gateway.Stats.{GatewayStats}

-- The constructor's arguments.
pub record BreakerConfig : Type 0 where
  pub failure_threshold : ℕ
  pub min_samples : ℕ
  pub cooldown_seconds : ℕ
  pub probe_count : ℕ
  pub probe_required_successes : ℕ

abbrev pub default_breaker : BreakerConfig
default_breaker = record {
  failure_threshold = 300_000;
  min_samples = 50;
  cooldown_seconds = 600;
  probe_count = 3;
  probe_required_successes = 2;
}

-- The dictionary under one key: `opened_at` is there only once the breaker has opened.
pub record BreakerState : Type 0 where
  pub state : GatewayHealthState
  pub updated_at : ℕ
  pub cooldown_seconds : ℕ
  pub probe_successes : ℕ
  pub probe_failures : ℕ
  pub opened_at : Option ℕ

abbrev pub opens : GatewayHealthState → ℕ → Option ℕ
opens open_state now = some now
opens _ now = none

-- `_new_state`
unfoldable pub new_state : GatewayHealthState → ℕ → ℕ → BreakerState
new_state state now cooldown = record {
  state = state;
  updated_at = now;
  cooldown_seconds = cooldown;
  probe_successes = 0;
  probe_failures = 0;
  opened_at = opens state now;
}

-- `x or d`, of a number
abbrev pub nonzero_or : ℕ → ℕ → ℕ
nonzero_or n d = if n == 0 then d else n

-- `state.get("opened_at", state.get("updated_at", now)) or now`
abbrev pub opened_at_or : BreakerState → ℕ → ℕ
opened_at_or s now = nonzero_or (elim s.opened_at [ none ↦ s.updated_at | some t ↦ t ]) now

unfoldable pub cooldown_of : BreakerConfig → BreakerState → ℕ
cooldown_of cfg s = nonzero_or s.cooldown_seconds cfg.cooldown_seconds

unfoldable pub required_failures : BreakerConfig → ℕ
required_failures cfg =
    if ltb cfg.probe_count cfg.probe_required_successes
    then 1
    else max 1 (cfg.probe_count - cfg.probe_required_successes + 1)

-- The three branches of `evaluate`: the state to save, if it saves one, and the state it returns.
unfoldable pub decide_closed :
    BreakerConfig → ℕ → GatewayStats → BreakerState → Option BreakerState × GatewayHealthState
decide_closed cfg now stats s =
    if ltb cfg.min_samples stats.sample_size
      && ltb cfg.failure_threshold stats.technical_failure_rate
    then (some (new_state open_state now cfg.cooldown_seconds), open_state)
    else (some s, closed)

unfoldable pub decide_open :
    BreakerConfig → ℕ → GatewayStats → BreakerState → Option BreakerState × GatewayHealthState
decide_open cfg now stats s =
    if leb (opened_at_or s now + cooldown_of cfg s * second_us) now
    then (some (new_state half_open now (cooldown_of cfg s)), half_open)
    else (none, open_state)

unfoldable pub decide_half_open :
    BreakerConfig → ℕ → GatewayStats → BreakerState → Option BreakerState × GatewayHealthState
decide_half_open cfg now stats s =
    if leb cfg.probe_required_successes s.probe_successes
    then (some (new_state closed now cfg.cooldown_seconds), closed)
    else if leb (required_failures cfg) s.probe_failures
    then (some (new_state open_state now (cooldown_of cfg s * 2)), open_state)
    else (none, half_open)

abbrev decide_from :
    GatewayHealthState
    → BreakerConfig
    → ℕ
    → GatewayStats
    → BreakerState
    → Option BreakerState × GatewayHealthState
decide_from closed = decide_closed
decide_from open_state = decide_open
decide_from half_open = decide_half_open

unfoldable pub decide :
    BreakerConfig → ℕ → GatewayStats → BreakerState → Option BreakerState × GatewayHealthState
unfolding decide_closed decide_open decide_half_open
decide cfg now stats s = decide_from s.state cfg now stats s

-- `_save_state` stamps what it writes.
abbrev pub stamped : BreakerState → ℕ → BreakerState
stamped s saved_at = record s { updated_at = saved_at }

abbrev pub saved : Option BreakerState → ℕ → BreakerState → BreakerState
saved none saved_at s = s
saved (some s') saved_at s = stamped s' saved_at

-- What stands under the key after `evaluate`.
unfoldable pub after_evaluate : BreakerConfig → ℕ → ℕ → GatewayStats → BreakerState → BreakerState
unfolding decide
after_evaluate cfg now saved_at stats s = saved (decide cfg now stats s).0 saved_at s

-- What stands under the key after `record_probe_result`.
abbrev pub is_half_open : GatewayHealthState → Bool
is_half_open half_open = true
is_half_open _ = false

unfoldable pub after_probe : Bool → ℕ → ℕ → BreakerState → BreakerState
after_probe success now saved_at s =
    if is_half_open s.state
    then stamped
        (if success
          then record s { probe_successes = s.probe_successes + 1; updated_at = now }
          else record s { probe_failures = s.probe_failures + 1; updated_at = now })
        saved_at
    else s
