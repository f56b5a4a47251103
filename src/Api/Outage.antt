-- ===== src/Api/Outage.antt =====
-- backend/api/main.py: simulate_outage, which reports sixty declines and asks for the health. The one
-- Redis client holds the sorted sets of the aggregator and the states of the breaker under keys that
-- start differently; they are two stores here.
pub mod Laws
use revenueguard_ai.Common.{
  ℕ, suc, ◌+◌, ◌*◌, ◌≤◌, ◌<◌, ◌≡◌, refl, ap, sym, ◌∙◌, inl, inr, String, Bool, true, false,
  Bool-cases, Option, none, some, List, [], ◌∷◌, map, length, All, if◌then◌else◌, ltb, arith,
}
use revenueguard_ai.Models.{GatewayHealthSnapshot, GatewayHealthState, closed, open_state}
use revenueguard_ai.Gateway.Stats.{GatewayStats}
use revenueguard_ai.Gateway.Window.{
  GatewayOutcome, success, technical_decline, business_decline, timeout, fifteen, width, window_key,
  SortedSets, count_of,
}
use revenueguard_ai.Gateway.Window.Counts.{in_window, tally, record_all}
use revenueguard_ai.Gateway.Window.Sliding.{count_of-record_all}
use revenueguard_ai.Gateway.Window.Rates.{Rates, get_stats, stats_of, rate_above}
use revenueguard_ai.Gateway.Breaker.{BreakerConfig, default_breaker, decide, new_state}
use revenueguard_ai.Gateway.Breaker.Service.{
  KeyValueStore, get_health, get_state, evaluate, snapshot,
}
use revenueguard_ai.Gateway.Downtime.{Texts, get_unified_health, unified, downtime_override}
use revenueguard_ai.Ingestion.Json.{Json}

pub data OutageReply : Type 0 where
  gateway_outage : GatewayHealthSnapshot → OutageReply
  unavailable : String → OutageReply

-- The readings of the clock after the declines, and what the vendor says.
pub record Moments : Type 0 where
  pub stats_at : ℕ
  pub read_at : ℕ
  pub now : ℕ
  pub saved_at : ℕ
  pub asked_at : ℕ

-- The declines of the loop, each at its moment.
abbrev pub declines : List ℕ → List (ℕ × GatewayOutcome)
declines moments = map (λ t. (t, technical_decline)) moments

module _ (windows : SortedSets) (redis : KeyValueStore) (cfg : BreakerConfig) (rates : Rates)
    (py : Texts) (strip : String → String) where
  pub record Stores : Type 0 where
    pub sets : windows.Store
    pub states : redis.Store

  abbrev pub answer :
      (moments : List ℕ) (clock : Moments) (downtimes : Option (List Json)) (bank rail : String)
      → Stores
      → OutageReply × Option Stores
  answer moments clock downtimes bank rail s =
      let sets = record_all windows bank rail (declines moments) s.sets in
      let (states, health) =
        get_unified_health redis cfg py clock.read_at clock.now clock.saved_at clock.asked_at bank
          rail (get_stats windows rates bank rail fifteen clock.stats_at sets) downtimes s.states in
      (gateway_outage health, some (record { sets = sets; states = states }))

  -- `simulate_outage`, of the client's stores, if there is a client, and the sixty moments.
  unfoldable pub simulate_outage :
      (moments : List ℕ) (clock : Moments) (downtimes : Option (List Json)) (bank rail : String)
      → Option Stores
      → OutageReply × Option Stores
  simulate_outage moments clock downtimes bank rail none =
      (unavailable "Redis is required to simulate an outage", none)
  simulate_outage moments clock downtimes bank rail (some s) =
      answer moments clock downtimes (strip bank) (py.lower (strip rail)) s
