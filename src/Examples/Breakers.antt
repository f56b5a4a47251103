-- ===== src/Examples/Breakers.antt =====
-- The breaker at its defaults, and a store that is a function.
use text.Mathlib.TextPositions.{eq_refl}
use text.Mathlib.TextEquality.{eq_iff}
use revenueguard_ai.Common.{
  ℕ, ◌+◌, ◌*◌, ◌<◌, ◌≤◌, ◌≡◌, refl, ◌≢◌, true, Bool-cases, inl, inr, some, Option, String, List, [],
  ◌∷◌, arith, str_eq, if◌then◌else◌, ap,
}
use revenueguard_ai.Models.{closed, open_state, half_open}
use revenueguard_ai.Models.Time.{second_us}
use revenueguard_ai.Gateway.Stats.{GatewayStats}
use revenueguard_ai.Gateway.Breaker.{
  default_breaker, BreakerState, new_state, after_evaluate, decide,
}
use revenueguard_ai.Gateway.Breaker.Service.{KeyValueStore, Raw, decoded, seconds_left}
use revenueguard_ai.Gateway.Breaker.Decide.{after_evaluate-Moves, Moves, IsSound, new_state-IsSound}
use revenueguard_ai.Gateway.Breaker.Rounds.{
  Call, evaluation, probe, run, run-IsSound, probes, failed_rounds, failed_rounds-IsOpen, IsOpen,
  recovery-closed, evaluations, evaluations-half_open,
}
use revenueguard_ai.Gateway.Breaker.Stored.{seconds_left-bounds}

-- Four of ten payments fail for technical reasons.
abbrev pub bad_stats : GatewayStats
bad_stats = record {
  bank = "HDFC";
  rail = "upi";
  window_minutes = 15;
  total_attempts = 100;
  success_rate = 600_000;
  technical_failure_rate = 400_000;
  business_decline_rate = 0;
  timeout_rate = 0;
  sample_size = 100;
}

abbrev pub at : ℕ → ℕ
at n = n * second_us

after_evaluate-Moves_example :
    ((after_evaluate default_breaker (at 1) (at 1) bad_stats (new_state closed 0 600)).state
      ≡ (decide default_breaker (at 1) bad_stats (new_state closed 0 600)).1)
    × Moves default_breaker
        (at 1)
        bad_stats
        (new_state closed 0 600)
        (decide default_breaker (at 1) bad_stats (new_state closed 0 600)).1
after_evaluate-Moves_example =
    after_evaluate-Moves default_breaker (at 1) (at 1) bad_stats (new_state closed 0 600)

abbrev calls : List Call
calls =
    evaluation (at 1) (at 1) bad_stats
    ∷ evaluation (at 602) (at 602) bad_stats
    ∷ probe true (at 603) (at 603)
    ∷ []

run-IsSound_example : IsSound (run default_breaker calls (new_state closed 0 600))
run-IsSound_example =
    run-IsSound default_breaker calls (new_state closed 0 600) (omega arith)
      (new_state-IsSound closed 0 600 (omega arith))

opened : IsOpen (new_state open_state (at 1) 600) (at 1) 600
unfolding new_state
opened = record { opened = refl; since = refl; cooldown = refl }

failed_rounds-IsOpen_example :
    IsOpen
      (failed_rounds default_breaker bad_stats
        (at 601 ∷ (at 1_801) ∷ [])
        (new_state open_state (at 1) 600))
      (at 1_801)
      2_400
failed_rounds-IsOpen_example =
    failed_rounds-IsOpen default_breaker bad_stats (at 601 ∷ (at 1_801) ∷ [])
      (new_state open_state (at 1) 600) (at 1) 600 (omega arith) (omega arith) (omega arith) opened
      (omega arith, (omega arith, tt))

recovery-closed_example :
    after_evaluate default_breaker (at 601) (at 601) bad_stats (
      probes true 2 (at 601) (
        after_evaluate default_breaker
          (at 601)
          (at 601)
          bad_stats
          (new_state open_state (at 1) 600)))
    ≡ new_state closed (at 601) 600
recovery-closed_example =
    recovery-closed default_breaker bad_stats (at 601) (new_state open_state (at 1) 600) (at 1) 600
      (omega arith) (omega arith) opened (omega arith)

evaluations-half_open_example :
    evaluations default_breaker
      ((at 700, bad_stats) ∷ (at 9_000, bad_stats) ∷ [])
      (new_state half_open (at 601) 600)
    ≡ new_state half_open (at 601) 600
unfolding new_state
evaluations-half_open_example =
    evaluations-half_open default_breaker ((at 700, bad_stats) ∷ (at 9_000, bad_stats) ∷ [])
      (new_state half_open (at 601) 600) (omega arith) refl refl refl

abbrev pub written : (String → Option Raw) → String → BreakerState → String → Option Raw
written r k s j = if str_eq j k then some (decoded s) else r j

pub written_self :
    (r : String → Option Raw) (k : String) (s : BreakerState) → written r k s k ≡ some (decoded s)
written_self r k s = ap (λ t. if t then some (decoded s) else r k) (eq_refl k)

pub written_ne :
    (r : String → Option Raw) (k j : String) (s : BreakerState) → j ≢ k → written r k s j ≡ r j
written_ne r k j s h = elim (Bool-cases (str_eq j k)) [
  | inl same ↦ absurd (h ((eq_iff j k).0 same))
  | inr other ↦ ap (λ t. if t then some (decoded s) else r j) other
]

abbrev pub function_store : KeyValueStore
function_store = record {
  Store = String → Option Raw;
  fetch = λ r k. r k;
  put = written;
  fetch-put_self = written_self;
  fetch-put_ne = written_ne;
}

abbrev pub stored_one : String → Option Raw
stored_one k = some (decoded (new_state closed 0 600))

seconds_left-bounds_example :
    (seconds_left default_breaker (at 100) (new_state open_state (at 1) 600) ≤ 600)
    × (at 1 + 600 * second_us
        < at 100
          + (seconds_left default_breaker (at 100) (new_state open_state (at 1) 600) + 1)
            * second_us)
seconds_left-bounds_example =
    seconds_left-bounds default_breaker (at 100) (new_state open_state (at 1) 600) (at 1) 600 opened
      (omega arith) (omega arith) (omega arith)
