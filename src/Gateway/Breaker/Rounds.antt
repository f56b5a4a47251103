-- ===== src/Gateway/Breaker/Rounds.antt =====
-- Runs of the breaker: rounds of probes, and what happens when nobody reports a probe.
use revenueguard_ai.Common.{
  ℕ, zero, suc, ◌+◌, ◌*◌, ◌^◌, ◌<◌, ◌≤◌, ◌≡◌, refl, Bool, true, false, List, [], ◌∷◌, some, arith,
  length,
}
use native.Mathlib.Nat.{pow-suc}
use revenueguard_ai.Models.{closed, open_state, half_open}
use revenueguard_ai.Models.Time.{second_us}
use revenueguard_ai.Gateway.Stats.{GatewayStats}
use revenueguard_ai.Gateway.Breaker.{
  BreakerConfig, BreakerState, after_evaluate, after_probe, new_state, cooldown_of,
  required_failures,
}
use revenueguard_ai.Gateway.Breaker.Decide.{IsSound, after_evaluate-IsSound, after_probe-IsSound}

-- A call on one key, with the readings of the clock that it makes.
pub data Call : Type 0 where
  evaluation : (now saved_at : ℕ) → GatewayStats → Call
  probe : Bool → (now saved_at : ℕ) → Call

unfoldable pub call : BreakerConfig → Call → BreakerState → BreakerState
call cfg (evaluation now saved_at stats) s = after_evaluate cfg now saved_at stats s
call cfg (probe success now saved_at) s = after_probe success now saved_at s

unfoldable pub run : BreakerConfig → List Call → BreakerState → BreakerState
run cfg [] s = s
run cfg (c ∷ cs) s = run cfg cs (call cfg c s)

-- Whatever is called, in whatever order, an open breaker knows when it opened, its cooldown is not
-- zero, and the probe counters are zero outside the half-open state.
pub run-IsSound :
    (cfg : BreakerConfig) (calls : List Call) (s : BreakerState)
    → 0 < cfg.cooldown_seconds
    → IsSound s
    → IsSound (run cfg calls s)
unfolding run call
run-IsSound cfg [] s c h = h
run-IsSound cfg (evaluation now saved_at stats ∷ cs) s c h =
    run-IsSound cfg cs _ c (after_evaluate-IsSound cfg now saved_at stats s c h)
run-IsSound cfg (probe success now saved_at ∷ cs) s c h =
    run-IsSound cfg cs _ c (after_probe-IsSound success now saved_at s h)

-- `n` reports of the same outcome.
unfoldable pub probes : Bool → ℕ → ℕ → BreakerState → BreakerState
probes success zero now s = s
probes success (suc n) now s = probes success n now (after_probe success now now s)

probes_failed :
    (n now : ℕ) (s : BreakerState)
    → s.state ≡ half_open
    → ((probes false n now s).state ≡ half_open)
      × ((probes false n now s).probe_failures ≡ s.probe_failures + n)
      × ((probes false n now s).probe_successes ≡ s.probe_successes)
      × ((probes false n now s).cooldown_seconds ≡ s.cooldown_seconds)
unfolding probes after_probe
probes_failed zero now s h = ground arith
probes_failed (suc n) now s h = ground (arith, probes_failed n now (after_probe false now now s))

probes_passed :
    (n now : ℕ) (s : BreakerState)
    → s.state ≡ half_open
    → ((probes true n now s).state ≡ half_open)
      × ((probes true n now s).probe_successes ≡ s.probe_successes + n)
unfolding probes after_probe
probes_passed zero now s h = ground arith
probes_passed (suc n) now s h = ground (arith, probes_passed n now (after_probe true now now s))

stays :
    (cfg : BreakerConfig) (now : ℕ) (stats : GatewayStats) (s : BreakerState)
    → 0 < cfg.probe_required_successes
    → s.state ≡ half_open
    → s.probe_successes ≡ 0
    → s.probe_failures ≡ 0
    → after_evaluate cfg now now stats s ≡ s
unfolding after_evaluate required_failures
stays cfg now stats s need h p f = ground arith

abbrev pub last_or : ℕ → List ℕ → ℕ
last_or t [] = t
last_or t (u ∷ us) = last_or u us

doubled : (c n : ℕ) → c * 2 ^ suc n ≡ c * 2 * 2 ^ n
doubled c n = rw pow-suc (omega arith)

-- One round of an open breaker whose cooldown is over: it is evaluated, enough probes fail, and it is
-- evaluated again.
unfoldable pub failed_round : BreakerConfig → GatewayStats → ℕ → BreakerState → BreakerState
failed_round cfg stats now s =
    after_evaluate cfg now now stats
      (probes false (required_failures cfg) now (after_evaluate cfg now now stats s))

-- An open breaker that opened at `t` with the cooldown `c`.
pub record IsOpen (s : BreakerState) (t c : ℕ) : Type 0 where
  pub opened : s.state ≡ open_state
  pub since : s.opened_at ≡ some t
  pub cooldown : s.cooldown_seconds ≡ c

module _ (cfg : BreakerConfig) (stats : GatewayStats) (now : ℕ) (s : BreakerState) (t c : ℕ) where
  evaluate-cooled :
      IsOpen s t c
      → 0 < t
      → 0 < c
      → t + c * second_us ≤ now
      → after_evaluate cfg now now stats s ≡ new_state half_open now c
  unfolding after_evaluate new_state cooldown_of
  evaluate-cooled h tpos cpos due = ground arith

  reopens :
      s.state ≡ half_open
      → s.probe_failures ≡ required_failures cfg
      → s.probe_successes ≡ 0
      → s.cooldown_seconds ≡ c
      → 0 < c
      → 0 < cfg.probe_required_successes
      → IsOpen (after_evaluate cfg now now stats s) now (c * 2)
  unfolding after_evaluate new_state cooldown_of
  reopens h f p e cpos some_needed = ground arith

failed_round-IsOpen :
    (cfg : BreakerConfig) (stats : GatewayStats) (now : ℕ) (s : BreakerState) (t c : ℕ)
    → IsOpen s t c
    → 0 < t
    → 0 < c
    → 0 < cfg.probe_required_successes
    → t + c * second_us ≤ now
    → IsOpen (failed_round cfg stats now s) now (c * 2)
unfolding failed_round new_state
failed_round-IsOpen cfg stats now s t c h tpos cpos some_needed due =
    let half = new_state half_open now c in
    let (state, failures, successes, cooldown) =
      probes_failed (required_failures cfg) now half refl in
    rw (evaluate-cooled cfg stats now s t c h tpos cpos due) (
      reopens cfg stats now (probes false (required_failures cfg) now half) t c state
        (ground (arith, failures)) successes cooldown cpos some_needed)

-- The times of the rounds: each comes when the cooldown, twice as long each time, is over.
abbrev pub Spaced : ℕ → ℕ → List ℕ → Type 0
Spaced t c [] = Unit
Spaced t c (now ∷ times) = (t + c * second_us ≤ now) × Spaced now (c * 2) times

unfoldable pub failed_rounds : BreakerConfig → GatewayStats → List ℕ → BreakerState → BreakerState
failed_rounds cfg stats [] s = s
failed_rounds cfg stats (now ∷ times) s =
    failed_rounds cfg stats times (failed_round cfg stats now s)

-- The cooldown doubles with every failed round: after rounds at the given times an open breaker is
-- open again, since the last of them, and its cooldown is `c` times two to their number.
pub failed_rounds-IsOpen :
    (cfg : BreakerConfig) (stats : GatewayStats) (times : List ℕ) (s : BreakerState) (t c : ℕ)
    → 0 < cfg.probe_required_successes
    → 0 < t
    → 0 < c
    → IsOpen s t c
    → Spaced t c times
    → IsOpen (failed_rounds cfg stats times s) (last_or t times) (c * 2 ^ length times)
unfolding failed_rounds
failed_rounds-IsOpen cfg stats [] s t c need tpos cpos h sp =
    let e : c * 1 ≡ c = omega arith in rw e h
failed_rounds-IsOpen cfg stats (now ∷ times) s t c need tpos cpos h sp =
    rw (doubled c (length times)) (
      failed_rounds-IsOpen cfg stats times _ now (c * 2) need (omega arith) (omega arith)
        (failed_round-IsOpen cfg stats now s t c h tpos cpos need sp.0) sp.1)

closes :
    (cfg : BreakerConfig) (now : ℕ) (stats : GatewayStats) (s : BreakerState)
    → s.state ≡ half_open
    → cfg.probe_required_successes ≤ s.probe_successes
    → after_evaluate cfg now now stats s ≡ new_state closed now cfg.cooldown_seconds
unfolding after_evaluate new_state
closes cfg now stats s h enough = ground arith

-- The way back: once the cooldown is over and enough probes succeed, the breaker closes, and its
-- cooldown is the configured one again.
pub recovery-closed :
    (cfg : BreakerConfig) (stats : GatewayStats) (now : ℕ) (s : BreakerState) (t c : ℕ)
    → 0 < t
    → 0 < c
    → IsOpen s t c
    → t + c * second_us ≤ now
    → after_evaluate cfg now now stats
        (probes true cfg.probe_required_successes now (after_evaluate cfg now now stats s))
      ≡ new_state closed now cfg.cooldown_seconds
unfolding new_state
recovery-closed cfg stats now s t c tpos cpos h due =
    let half = new_state half_open now c in
    let (state, successes) = probes_passed cfg.probe_required_successes now half refl in
    rw (evaluate-cooled cfg stats now s t c h tpos cpos due)
      (closes cfg now stats _ state (omega (arith, successes)))

-- Evaluations alone, at the given times and with the given statistics.
unfoldable pub evaluations : BreakerConfig → List (ℕ × GatewayStats) → BreakerState → BreakerState
evaluations cfg [] s = s
evaluations cfg ((now, stats) ∷ rest) s = evaluations cfg rest (after_evaluate cfg now now stats s)

-- A half-open breaker whose probes nobody reports stays as it is, whatever the statistics and
-- however often and late it is evaluated, when at least one success is required.
pub evaluations-half_open :
    (cfg : BreakerConfig) (rest : List (ℕ × GatewayStats)) (s : BreakerState)
    → 0 < cfg.probe_required_successes
    → s.state ≡ half_open
    → s.probe_successes ≡ 0
    → s.probe_failures ≡ 0
    → evaluations cfg rest s ≡ s
unfolding evaluations
evaluations-half_open cfg [] s need h p f = refl
evaluations-half_open cfg ((now, stats) ∷ rest) s need h p f =
    rw (stays cfg now stats s need h p f) (evaluations-half_open cfg rest s need h p f)
