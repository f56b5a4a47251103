-- ===== src/Api/Outage/Laws.antt =====
-- A simulated outage opens the breaker.
use revenueguard_ai.Common.{
  ℕ, ◌+◌, ◌≤◌, ◌<◌, ◌≡◌, refl, ap, ◌∙◌, String, Bool, true, false, Option, none, some, List, [],
  ◌∷◌, length, All, if◌then◌else◌, arith,
}
use revenueguard_ai.Models.{GatewayHealthSnapshot, closed, open_state}
use revenueguard_ai.Gateway.Stats.{GatewayStats}
use revenueguard_ai.Gateway.Window.{
  GatewayOutcome, success, technical_decline, business_decline, timeout, fifteen, width, window_key,
  SortedSets, count_of,
}
use revenueguard_ai.Gateway.Window.Counts.{in_window, same_outcome, tally, record_all}
use revenueguard_ai.Gateway.Window.Sliding.{count_of-record_all}
use revenueguard_ai.Gateway.Window.Rates.{Rates, get_stats, stats_of, rate_above}
use revenueguard_ai.Gateway.Breaker.{
  BreakerConfig, BreakerState, default_breaker, decide, decide_closed, new_state, stamped,
}
use revenueguard_ai.Gateway.Breaker.Service.{
  KeyValueStore, key, get_health, get_state, evaluate, write, snapshot, Raw, decoded, undecodable,
}
use revenueguard_ai.Gateway.Downtime.{
  Texts, get_unified_health, unified, downtime_override, some_match, downtime_matches, downtimes_or,
}
use revenueguard_ai.Ingestion.Json.{Json}
use revenueguard_ai.Api.Outage.{
  gateway_outage, unavailable, Moments, declines, Stores, simulate_outage,
}

tally-declines :
    (now : ℕ) (moments : List ℕ)
    → All (λ t. now < t + width fifteen) moments
    → tally now fifteen technical_decline (declines moments) ≡ length moments
tally-declines now [] h = refl
tally-declines now (t ∷ l) h = ground (arith, h.0, tally-declines now l h.1)

tally-others :
    (now : ℕ) (o : GatewayOutcome) (moments : List ℕ)
    → same_outcome technical_decline o ≡ false
    → tally now fifteen o (declines moments) ≡ 0
tally-others now o [] h = refl
tally-others now o (t ∷ l) h = ground (arith, h, tally-others now o l h)

declined_before :
    (now : ℕ) (moments : List ℕ)
    → All (λ t. t ≤ now) moments
    → All (λ x. x.0 ≤ now) (declines moments)
declined_before now [] h = tt
declined_before now (t ∷ l) h = (h.0, declined_before now l h.1)

-- A closed breaker opens on enough samples with a high rate of failures.
decide-opens :
    (cfg : BreakerConfig) (now : ℕ) (stats : GatewayStats) (s : BreakerState)
    → s.state ≡ closed
    → cfg.min_samples < stats.sample_size
    → cfg.failure_threshold < stats.technical_failure_rate
    → decide cfg now stats s ≡ (some (new_state open_state now cfg.cooldown_seconds), open_state)
unfolding decide decide_closed
decide-opens cfg now stats s h enough high = ground arith

module _ (redis : KeyValueStore) (cfg : BreakerConfig) (py : Texts) (bank rail : String)
    (stats : GatewayStats) (clock : Moments) (downtimes : Option (List Json)) (r : redis.Store)
    (closed_before : (get_state redis cfg clock.read_at bank rail r).state ≡ closed)
    (enough : cfg.min_samples < stats.sample_size)
    (high : cfg.failure_threshold < stats.technical_failure_rate) where
  opened : BreakerState
  opened = new_state open_state clock.now cfg.cooldown_seconds

  evaluate-opens :
      evaluate redis cfg clock.read_at clock.now clock.saved_at bank rail stats r
      ≡ (write redis cfg (key bank rail) (some opened) clock.saved_at r, open_state)
  unfolding evaluate opened
  evaluate-opens =
      ap (λ d. (write redis cfg (key bank rail) d.0 clock.saved_at r, d.1))
        (decide-opens cfg clock.now stats (get_state redis cfg clock.read_at bank rail r)
          closed_before enough high)

  internal : GatewayHealthSnapshot
  internal =
      (get_health redis cfg clock.read_at clock.now clock.saved_at clock.asked_at bank rail stats
        r).1

  internal-state : internal.state ≡ open_state
  unfolding internal get_health snapshot
  internal-state = ap (λ e. e.1) evaluate-opens

  unified-state : (unified py bank rail downtimes internal).state ≡ open_state
  unfolding downtime_override
  unified-state = go (some_match (downtime_matches py bank rail) (downtimes_or downtimes))
    where
      go : (b : Bool) → (if b then downtime_override internal else internal).state ≡ open_state
      go true = refl
      go false = internal-state

  written-state :
      (t : ℕ)
      → (get_state redis cfg t bank rail
          (write redis cfg (key bank rail) (some opened) clock.saved_at r)).state
        ≡ open_state
  unfolding get_state opened new_state
  written-state t =
      let read : Option Raw → BreakerState = λ o. elim o [
        | none ↦ new_state closed t cfg.cooldown_seconds
        | some undecodable ↦ new_state closed t cfg.cooldown_seconds
        | some (decoded s) ↦ s
      ] in
      ap (λ o. (read o).state)
        (redis.fetch-put_self r (key bank rail) (stamped opened clock.saved_at))

  -- The health is open, and so is the state in the store.
  get_unified_health-opens :
      let (r', h) =
        get_unified_health redis cfg py clock.read_at clock.now clock.saved_at clock.asked_at bank
          rail stats downtimes r in
      (h.state ≡ open_state) × ((t : ℕ) → (get_state redis cfg t bank rail r').state ≡ open_state)
  unfolding get_unified_health get_health internal
  get_unified_health-opens = (
    unified-state,
    λ t. ap (λ e. (get_state redis cfg t bank rail e.0).state) evaluate-opens ∙ written-state t,
  )

module _ (windows : SortedSets) (redis : KeyValueStore) (rates : Rates) (py : Texts)
    (strip : String → String) (moments : List ℕ) (clock : Moments)
    (downtimes : Option (List Json)) where
  -- The declines of the loop are in the window's statistics.
  module _ (bank rail : String) (sets : windows.Store) (sixty : length moments ≡ 60)
      (past : All (λ t. t ≤ clock.stats_at) moments)
      (recent : All (λ t. clock.stats_at < t + width fifteen) moments) where
    abbrev earlier : GatewayOutcome → ℕ
    earlier o =
        windows.count sets (window_key bank rail fifteen o) (in_window clock.stats_at fifteen)

    abbrev stats : GatewayStats
    stats =
        get_stats windows rates bank rail fifteen clock.stats_at
          (record_all windows bank rail (declines moments) sets)

    counted :
        (o : GatewayOutcome)
        → count_of windows bank rail clock.stats_at fifteen
            (record_all windows bank rail (declines moments) sets)
            o
          ≡ earlier o + tally clock.stats_at fifteen o (declines moments)
    counted o =
        count_of-record_all windows bank rail clock.stats_at fifteen o (declines moments) sets
          (declined_before clock.stats_at moments past)

    stats-failing :
        earlier success + earlier business_decline ≤ 139
        → (50 < stats.sample_size) × (300_000 < stats.technical_failure_rate)
    unfolding get_stats stats_of
    stats-failing few =
        let a = counted success in
        let b = counted technical_decline in
        let c = counted business_decline in
        let d = counted timeout in
        let a' = tally-others clock.stats_at success moments refl in
        let c' = tally-others clock.stats_at business_decline moments refl in
        let d' = tally-others clock.stats_at timeout moments refl in
        let b' = tally-declines clock.stats_at moments recent in
        let failures = read technical_decline + read timeout in
        let others = read success + read business_decline in
        let same_total : rates.rate failures (failures + others)
            ≡ rates.rate failures
                (read success + read technical_decline + read business_decline + read timeout) =
          ap (λ n. rates.rate failures n) (omega arith) in
        (
          omega (arith, a, b, c, d, a', b', c', d', sixty),
          omega (
            arith,
            same_total,
            rate_above rates failures others (omega (arith, b, b', sixty))
                (omega (arith, a, c, a', c')),
          ),
        )
      where
        read : GatewayOutcome → ℕ
        read =
            count_of windows bank rail clock.stats_at fifteen
              (record_all windows bank rail (declines moments) sets)

-- The sixty declines of a simulated outage open a breaker that was closed, as long as at most 139
-- other outcomes of the bank and the rail, successes and business declines, are in the last fifteen
-- minutes, and the declines are: the event says that the gateway is open, whatever the vendor says of
-- downtimes, and from then on the breaker is read as open. Without Redis the call is refused.
pub simulate_outage-opens :
    (windows : SortedSets) (redis : KeyValueStore) (rates : Rates) (py : Texts)
    (strip : String → String) (moments : List ℕ) (clock : Moments) (downtimes : Option (List Json))
    (bank rail : String) (s : Stores windows redis default_breaker rates py strip)
    → length moments ≡ 60
    → All (λ t. t ≤ clock.stats_at) moments
    → All (λ t. clock.stats_at < t + width fifteen) moments
    → windows.count s.sets
          (window_key (strip bank) (py.lower (strip rail)) fifteen success)
          (in_window clock.stats_at fifteen)
        + windows.count s.sets
            (window_key (strip bank) (py.lower (strip rail)) fifteen business_decline)
            (in_window clock.stats_at fifteen)
      ≤ 139
    → (get_state redis default_breaker clock.read_at
        (strip bank)
        (py.lower (strip rail))
        s.states).state
      ≡ closed
    → (h : GatewayHealthSnapshot) × (s' : Stores windows redis default_breaker rates py strip)
      × (simulate_outage windows redis default_breaker rates py strip moments clock downtimes bank
            rail
            (some s)
          ≡ (gateway_outage h, some s'))
      × (h.state ≡ open_state)
      × ((t : ℕ)
          → (get_state redis default_breaker t (strip bank) (py.lower (strip rail)) s'.states).state
            ≡ open_state)
      × (simulate_outage windows redis default_breaker rates py strip moments clock downtimes bank
            rail none
          ≡ (unavailable "Redis is required to simulate an outage", none))
unfolding simulate_outage
simulate_outage-opens windows redis rates py strip moments clock downtimes bank rail s sixty past
      recent few closed_before =
    let (enough, high) =
      stats-failing windows redis rates py strip moments clock downtimes (strip bank)
        (py.lower (strip rail)) s.sets sixty past recent few in
    let (opens, stays) =
      get_unified_health-opens redis default_breaker py (strip bank) (py.lower (strip rail))
        (get_stats windows rates (strip bank) (py.lower (strip rail)) fifteen clock.stats_at
          (record_all windows (strip bank) (py.lower (strip rail)) (declines moments) s.sets))
        clock downtimes s.states closed_before enough high in
    (_, _, refl, opens, stays, refl)
