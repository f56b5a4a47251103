-- ===== src/Gateway/Breaker/Decide.antt =====
-- One call of the breaker: the transitions it can make, and what it keeps true of its state.
use revenueguard_ai.Common.{ℕ, ◌+◌, ◌*◌, ◌<◌, ◌≤◌, ◌≡◌, ◌≢◌, Bool, none, arith}
use revenueguard_ai.Models.{GatewayHealthState, closed, open_state, half_open}
use revenueguard_ai.Models.Time.{second_us}
use revenueguard_ai.Gateway.Stats.{GatewayStats}
use revenueguard_ai.Gateway.Breaker.{
  BreakerConfig, BreakerState, decide, after_evaluate, after_probe, new_state, cooldown_of,
  required_failures, opened_at_or,
}

-- The edges of the breaker's diagram, each with what it takes to follow it.
pub data Moves (cfg : BreakerConfig) (now : ℕ) (stats : GatewayStats) (s : BreakerState)
    : GatewayHealthState → Type 0 where
  stay : Moves cfg now stats s s.state
  trip :
      s.state ≡ closed
      → cfg.min_samples < stats.sample_size
      → cfg.failure_threshold < stats.technical_failure_rate
      → Moves cfg now stats s open_state
  cool :
      s.state ≡ open_state
      → opened_at_or s now + cooldown_of cfg s * second_us ≤ now
      → Moves cfg now stats s half_open
  recover :
      s.state ≡ half_open
      → cfg.probe_required_successes ≤ s.probe_successes
      → Moves cfg now stats s closed
  reopen :
      s.state ≡ half_open
      → required_failures cfg ≤ s.probe_failures
      → Moves cfg now stats s open_state

decide-Moves :
    (cfg : BreakerConfig) (now : ℕ) (stats : GatewayStats) (s : BreakerState)
    → Moves cfg now stats s (decide cfg now stats s).1
unfolding decide
decide-Moves cfg now stats s = grind (arith, stay, trip, cool, recover, reopen)

-- What `evaluate` returns is the state that stands in the store after it, and it is reached along an
-- edge of the diagram: a closed breaker opens only on more samples than the minimum and a failure
-- rate above the threshold, an open one is probed only after its cooldown, and a half-open one closes
-- on enough successes or opens again on enough failures.
pub after_evaluate-Moves :
    (cfg : BreakerConfig) (now saved_at : ℕ) (stats : GatewayStats) (s : BreakerState)
    → ((after_evaluate cfg now saved_at stats s).state ≡ (decide cfg now stats s).1)
      × Moves cfg now stats s (decide cfg now stats s).1
unfolding after_evaluate new_state
after_evaluate-Moves cfg now saved_at stats s = (ground arith, decide-Moves cfg now stats s)

-- What holds of every state that the breaker writes.
pub record IsSound (s : BreakerState) : Type 0 where
  pub dated : s.state ≡ open_state → s.opened_at ≢ none
  pub cooling : 0 < s.cooldown_seconds
  pub unprobed : s.state ≢ half_open → (s.probe_successes ≡ 0) × (s.probe_failures ≡ 0)

pub new_state-IsSound :
    (state : GatewayHealthState) (now cooldown : ℕ)
    → 0 < cooldown
    → IsSound (new_state state now cooldown)
unfolding new_state
new_state-IsSound open_state now cooldown h = ground arith
new_state-IsSound _ now cooldown h = ground arith

pub after_evaluate-IsSound :
    (cfg : BreakerConfig) (now saved_at : ℕ) (stats : GatewayStats) (s : BreakerState)
    → 0 < cfg.cooldown_seconds
    → IsSound s
    → IsSound (after_evaluate cfg now saved_at stats s)
unfolding after_evaluate new_state cooldown_of
after_evaluate-IsSound cfg now saved_at stats s c h = ground arith

pub after_probe-IsSound :
    (success : Bool) (now saved_at : ℕ) (s : BreakerState)
    → IsSound s
    → IsSound (after_probe success now saved_at s)
unfolding after_probe
after_probe-IsSound success now saved_at s h = ground arith
