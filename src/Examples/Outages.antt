-- ===== src/Examples/Outages.antt =====
-- An outage of a bank whose window and breaker are empty, with one second between the declines.
use revenueguard_ai.Common.{
  ℕ, zero, suc, ◌+◌, ◌-◌, ◌*◌, ◌≤◌, ◌<◌, ◌≡◌, refl, none, some, List, [], ◌∷◌, All, arith,
}
use revenueguard_ai.Models.{GatewayHealthSnapshot, open_state}
use revenueguard_ai.Models.Time.{second_us, hour_us}
use revenueguard_ai.Gateway.Window.{fifteen, width}
use revenueguard_ai.Gateway.Breaker.{default_breaker, new_state}
use revenueguard_ai.Gateway.Breaker.Service.{get_state}
use revenueguard_ai.Api.Outage.{Moments, Stores, gateway_outage, unavailable, simulate_outage}
use revenueguard_ai.Api.Outage.Laws.{simulate_outage-opens}
use revenueguard_ai.Examples.Numbers.{rounded_down}
use revenueguard_ai.Examples.Breakers.{function_store, stored_one}
use revenueguard_ai.Examples.Windows.{scores}
use revenueguard_ai.Examples.Downtimes.{py}

abbrev moments_from : ℕ → ℕ → List ℕ
moments_from zero t = []
moments_from (suc n) t = t ∷ moments_from n (t + second_us)

past : (n t : ℕ) → t + n * second_us ≤ 2 * hour_us → All (λ t. t ≤ 2 * hour_us) (moments_from n t)
past zero t h = tt
past (suc n) t h = (omega arith, past n (t + second_us) (omega arith))

recent :
    (n t : ℕ)
    → 2 * hour_us < t + width fifteen
    → All (λ t. 2 * hour_us < t + width fifteen) (moments_from n t)
recent zero t h = tt
recent (suc n) t h = (h, recent n (t + second_us) (omega arith))

abbrev start : ℕ
start = 2 * hour_us - 60 * second_us

abbrev clock : Moments
clock = record {
  stats_at = 2 * hour_us;
  read_at = 2 * hour_us;
  now = 2 * hour_us;
  saved_at = 2 * hour_us;
  asked_at = 2 * hour_us;
}

abbrev stores : Stores scores function_store default_breaker rounded_down py (λ s. s)
stores = record { sets = λ k. []; states = stored_one }

simulate_outage-opens_example :
    (h : GatewayHealthSnapshot) × (s' : Stores scores function_store default_breaker rounded_down py
      (λ s. s))
    × (simulate_outage scores function_store default_breaker rounded_down py
          (λ s. s)
          (moments_from 60 start)
          clock
          none
          "SBI"
          "upi"
          (some stores)
        ≡ (gateway_outage h, some s'))
    × (h.state ≡ open_state)
    × ((t : ℕ)
        → (get_state function_store default_breaker t "SBI" "upi" s'.states).state ≡ open_state)
    × (simulate_outage scores function_store default_breaker rounded_down py
          (λ s. s)
          (moments_from 60 start)
          clock
          none
          "SBI"
          "upi"
          none
        ≡ (unavailable "Redis is required to simulate an outage", none))
unfolding get_state new_state
simulate_outage-opens_example =
    simulate_outage-opens scores function_store rounded_down py (λ s. s) (moments_from 60 start)
      clock none "SBI" "upi" stores refl (past 60 start (omega arith))
      (recent 60 start (omega arith)) (omega arith) refl
