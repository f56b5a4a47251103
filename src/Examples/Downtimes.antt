-- ===== src/Examples/Downtimes.antt =====
-- The vendor reports that a bank is down.
use revenueguard_ai.Common.{◌≤◌, ◌≡◌, String, true, false, some, List, [], ◌∷◌, returned}
use revenueguard_ai.Common.Int.{pos}
use revenueguard_ai.Models.{open_state, RecoveryState, decision, defer}
use revenueguard_ai.Gateway.Breaker.{default_breaker}
use revenueguard_ai.Gateway.Breaker.Service.{get_health}
use revenueguard_ai.Gateway.Downtime.{Texts, downtime_matches, some_match, get_unified_health}
use revenueguard_ai.Gateway.Downtime.Laws.{get_unified_health-cases}
use revenueguard_ai.Ingestion.Json.{Json, text, object, no_members, member}
use revenueguard_ai.Agents.External.{External}
use revenueguard_ai.Agents.Strategy.{agent_strategize, strategy_result}
use revenueguard_ai.Examples.Breakers.{function_store, stored_one, bad_stats, at}

abbrev pub str : Json → String
str (text s) = s
str j = ""

abbrev pub py : Texts
py = record { str = str; lower = λ s. s }

abbrev down : List Json
down = object (member "status" (text "started") (member "bank" (text "HDFC") no_members)) ∷ []

get_unified_health-cases_example :
    let (r', h) =
      get_unified_health function_store default_breaker py
        (at 1)
        (at 1)
        (at 1)
        (at 1)
        "HDFC"
        "upi"
        bad_stats
        (some down)
        stored_one in
    let (r0, internal) =
      get_health function_store default_breaker
        (at 1)
        (at 1)
        (at 1)
        (at 1)
        "HDFC"
        "upi"
        bad_stats
        stored_one in
    (some_match (downtime_matches py "HDFC" "upi") down ≡ true
      → (h.state ≡ open_state)
        × (600 ≤ h.retry_after_seconds)
        × ((ext : External) (s : RecoveryState)
            → s.gateway_health ≡ some h
            → agent_strategize ext s
              ≡ returned (
                  strategy_result ext s
                    (record (decision defer "Gateway circuit breaker is open.") {
                      retry_delay_seconds = pos h.retry_after_seconds;
                    })
                    "Deterministic override applied.")))
    × (some_match (downtime_matches py "HDFC" "upi") down ≡ false → h ≡ internal)
    × (r' ≡ r0)
get_unified_health-cases_example =
    get_unified_health-cases function_store default_breaker py (at 1) (at 1) (at 1) (at 1) "HDFC"
      "upi" bad_stats (some down) stored_one
