-- ===== src/Gateway/Window.antt =====
-- backend/gateway_health/aggregator.py: GatewayHealthAggregator, up to the counts of get_stats: the
-- rates are these counts divided and rounded in floating point. Times are microseconds.
pub mod Keys
pub mod Counts
pub mod Sliding
pub mod Rates
pub mod Banks
use Prim.Native.String.{◌++◌}
use revenueguard_ai.Common.{
  ℕ, ◌+◌, ◌-◌, ◌*◌, ◌≡◌, ◌≢◌, String, Bool, true, false, not, ◌&&◌, Option, none, some, List, [],
  ◌∷◌, if◌then◌else◌, leb, ltb,
}
use revenueguard_ai.Models.Time.{second_us}

-- OUTCOMES; record_outcome raises for any other text before it writes.
pub data GatewayOutcome : Type 0 where
  success technical_decline business_decline timeout : GatewayOutcome

-- `windows`, in minutes; `_validate_window` raises for any other number.
pub data Window : Type 0 where
  five fifteen sixty : Window

abbrev pub outcome_text : GatewayOutcome → String
outcome_text success = "success"
outcome_text technical_decline = "technical_decline"
outcome_text business_decline = "business_decline"
outcome_text timeout = "timeout"

abbrev pub window_text : Window → String
window_text five = "5"
window_text fifteen = "15"
window_text sixty = "60"

abbrev pub width : Window → ℕ
width five = 5 * 60 * second_us
width fifteen = 15 * 60 * second_us
width sixty = 60 * 60 * second_us

-- `_key`
unfoldable pub window_key : String → String → Window → GatewayOutcome → String
window_key bank rail w o =
    "gw:" ++ (bank ++ (":" ++ (rail ++ (":" ++ (window_text w ++ ("m:" ++ outcome_text o))))))

-- The sorted sets of Redis, as the aggregator relies on them: how many members of a key have a
-- score that passes a test. A new member adds one; removing the scores up to a bound leaves the
-- later ones; a time to live, before it ends, and calls on other keys change nothing.
pub record SortedSets : Type 1 where
  pub Store : Type 0
  pub count : Store → String → (ℕ → Bool) → ℕ
  -- zadd of a new member: its text ends in a new `uuid4`
  pub zadd : Store → String → ℕ → Store
  pub zremrangebyscore : Store → String → ℕ → Store
  pub expire : Store → String → Store
  pub zcard : Store → String → ℕ
  pub zcard-count : (r : Store) (k : String) → zcard r k ≡ count r k (λ t. true)
  pub count-zadd :
      (r : Store) (k : String) (t : ℕ) (p : ℕ → Bool)
      → count (zadd r k t) k p ≡ count r k p + (if p t then 1 else 0)
  pub count-zadd_ne :
      (r : Store) (k j : String) (t : ℕ) (p : ℕ → Bool)
      → j ≢ k
      → count (zadd r k t) j p ≡ count r j p
  pub count-zremrangebyscore :
      (r : Store) (k : String) (upto : ℕ) (p : ℕ → Bool)
      → count (zremrangebyscore r k upto) k p ≡ count r k (λ t. p t && ltb upto t)
  pub count-zremrangebyscore_ne :
      (r : Store) (k j : String) (upto : ℕ) (p : ℕ → Bool)
      → j ≢ k
      → count (zremrangebyscore r k upto) j p ≡ count r j p
  pub count-expire :
      (r : Store) (k j : String) (p : ℕ → Bool) → count (expire r k) j p ≡ count r j p

module _ (redis : SortedSets) (bank rail : String) where
  open redis use {Store, zadd, zremrangebyscore, expire, zcard}

  -- `zremrangebyscore(key, 0, now - window)`: a negative bound removes nothing.
  unfoldable pub trim : ℕ → Window → GatewayOutcome → Store → Store
  trim now w o r =
      if leb (width w) now then zremrangebyscore r (window_key bank rail w o) (now - width w) else r

  unfoldable pub record_window : ℕ → GatewayOutcome → Window → Store → Store
  record_window now o w r =
      expire (trim now w o (zadd r (window_key bank rail w o) now)) (window_key bank rail w o)

  unfoldable pub record_outcome : ℕ → GatewayOutcome → Store → Store
  record_outcome now o r =
      record_window now o sixty (record_window now o fifteen (record_window now o five r))

  -- `_cleanup_window`
  unfoldable pub cleanup_window : ℕ → Window → Store → Store
  cleanup_window now w r =
      trim now w timeout
        (trim now w business_decline (trim now w technical_decline (trim now w success r)))

  -- The counts that get_stats reads after it has cleaned the window up.
  unfoldable pub count_of : ℕ → Window → Store → GatewayOutcome → ℕ
  count_of now w r o = zcard (cleanup_window now w r) (window_key bank rail w o)
