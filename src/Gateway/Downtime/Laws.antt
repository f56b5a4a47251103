-- ===== src/Gateway/Downtime/Laws.antt =====
-- What a reported downtime means for the health and for the strategist.
use mathlib.Core.Path.{subst}
use revenueguard_ai.Common.{
  sym, ℕ, ◌≤◌, ◌≡◌, refl, ap, String, true, false, Option, some, List, max, if◌then◌else◌, returned,
  arith,
}
use revenueguard_ai.Common.Int.{pos}
use revenueguard_ai.Models.{GatewayHealthSnapshot, open_state, RecoveryState, decision, defer}
use revenueguard_ai.Gateway.Stats.{GatewayStats}
use revenueguard_ai.Gateway.Breaker.{BreakerConfig}
use revenueguard_ai.Gateway.Breaker.Service.{KeyValueStore, get_health}
use revenueguard_ai.Ingestion.Json.{Json}
use revenueguard_ai.Gateway.Downtime.{
  Texts, downtime_matches, downtime_override, some_match, downtimes_or, unified, get_unified_health,
}
use revenueguard_ai.Agents.External.{External}
use revenueguard_ai.Agents.Strategy.{agent_strategize, deterministic_override, strategy_result}

max-nonzero : (n : ℕ) → 600 ≤ max n 600
max-nonzero n = ground arith

-- A run whose health is the overridden one is deferred by the override's time.
strategize-override :
    (ext : External) (s : RecoveryState) (h : GatewayHealthSnapshot)
    → s.gateway_health ≡ some (downtime_override h)
    → agent_strategize ext s
      ≡ returned (
          strategy_result ext s
            (record (decision defer "Gateway circuit breaker is open.") {
              retry_delay_seconds = pos (max h.retry_after_seconds 600);
            })
            "Deterministic override applied.")
unfolding agent_strategize deterministic_override downtime_override
strategize-override ext s h e = ground arith

module _ (redis : KeyValueStore) (cfg : BreakerConfig) (py : Texts)
    (read_at now saved_at asked_at : ℕ) (bank rail : String) (stats : GatewayStats)
    (downtimes : Option (List Json)) (r : redis.Store) where
  -- While the vendor reports a downtime that matches the bank and the rail, the health is open with
  -- at least ten minutes to wait, whatever the breaker says, and the strategist defers every case
  -- that has this health for just that time, without asking the language model. With no matching
  -- downtime, or when the vendor cannot be asked, the health is the breaker's. The breaker's store
  -- is changed in the same way in both cases.
  pub get_unified_health-cases :
      let (r', h) =
        get_unified_health redis cfg py read_at now saved_at asked_at bank rail stats downtimes r in
      let (r0, internal) = get_health redis cfg read_at now saved_at asked_at bank rail stats r in
      (some_match (downtime_matches py bank rail) (downtimes_or downtimes) ≡ true
        → (h.state ≡ open_state)
          × (600 ≤ h.retry_after_seconds)
          × ((ext : External) (s : RecoveryState)
              → s.gateway_health ≡ some h
              → agent_strategize ext s
                ≡ returned (
                    strategy_result ext s
                      (record (decision defer "Gateway circuit breaker is open.") {
                        retry_delay_seconds = pos h.retry_after_seconds;
                      })
                      "Deterministic override applied.")))
      × (some_match (downtime_matches py bank rail) (downtimes_or downtimes) ≡ false → h ≡ internal)
      × (r' ≡ r0)
  unfolding get_unified_health downtime_override
  get_unified_health-cases =
      let internal = (get_health redis cfg read_at now saved_at asked_at bank rail stats r).1 in
      (matched internal, unmatched internal, refl)
    where
      Matched : GatewayHealthSnapshot → Type 0
      Matched h =
          (h.state ≡ open_state)
          × (600 ≤ h.retry_after_seconds)
          × ((ext : External) (s : RecoveryState)
              → s.gateway_health ≡ some h
              → agent_strategize ext s
                ≡ returned (
                    strategy_result ext s
                      (record (decision defer "Gateway circuit breaker is open.") {
                        retry_delay_seconds = pos h.retry_after_seconds;
                      })
                      "Deterministic override applied."))

      matched :
          (i : GatewayHealthSnapshot)
          → some_match (downtime_matches py bank rail) (downtimes_or downtimes) ≡ true
          → Matched (unified py bank rail downtimes i)
      matched i e =
          subst Matched (ap (λ b. if b then downtime_override i else i) (sym e))
            (refl, max-nonzero i.retry_after_seconds, λ ext s h. strategize-override ext s i h)

      unmatched :
          (i : GatewayHealthSnapshot)
          → some_match (downtime_matches py bank rail) (downtimes_or downtimes) ≡ false
          → unified py bank rail downtimes i ≡ i
      unmatched i e = ap (λ b. if b then downtime_override i else i) e
