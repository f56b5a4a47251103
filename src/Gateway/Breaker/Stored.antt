-- ===== src/Gateway/Breaker/Stored.antt =====
-- The breaker in Redis: what its calls do to the store is what the calls of one key do to its state.
use revenueguard_ai.Common.{
  ℕ, ◌≡◌, refl, ◌≢◌, ◌<◌, ◌≤◌, ◌+◌, ◌*◌, Bool-cases, inl, inr, ◌∙◌, String, List, [], ◌∷◌, Option,
  none, some, arith,
}
use revenueguard_ai.Models.Time.{second_us}
use revenueguard_ai.Gateway.Breaker.{
  BreakerConfig, BreakerState, after_evaluate, after_probe, cooldown_of, is_half_open, saved,
}
use revenueguard_ai.Gateway.Breaker.Service.{
  KeyValueStore, decoded, key, get_state, evaluate, record_probe_result, seconds_left, write,
}
use revenueguard_ai.Gateway.Breaker.Rounds.{Call, evaluation, probe, call, run, IsOpen}

module _ (redis : KeyValueStore) (cfg : BreakerConfig) where
  open redis use {Store, fetch, put, fetch-put_self, fetch-put_ne}

  -- A call for one bank and rail, on the store.
  unfoldable pub store_call : String → String → Call → Store → Store
  store_call bank rail (evaluation now saved_at stats) r =
      (evaluate redis cfg now now saved_at bank rail stats r).0
  store_call bank rail (probe success now saved_at) r =
      record_probe_result redis cfg now now saved_at bank rail success r

  unfoldable pub store_run : String → String → List Call → Store → Store
  store_run bank rail [] r = r
  store_run bank rail (c ∷ cs) r = store_run bank rail cs (store_call bank rail c r)

  write-fetch :
      (k : String) (save : Option BreakerState) (saved_at : ℕ) (r : Store) (s : BreakerState)
      → fetch r k ≡ some (decoded s)
      → fetch (write redis cfg k save saved_at r) k ≡ some (decoded (saved save saved_at s))
  write-fetch k none saved_at r s h = h
  write-fetch k (some s') saved_at r s h = fetch-put_self r k _

  write-other :
      (k j : String) (save : Option BreakerState) (saved_at : ℕ) (r : Store)
      → j ≢ k
      → fetch (write redis cfg k save saved_at r) j ≡ fetch r j
  write-other k j none saved_at r h = refl
  write-other k j (some s') saved_at r h = fetch-put_ne r k j _ h

  get_state-found :
      (now : ℕ) (bank rail : String) (r : Store) (s : BreakerState)
      → fetch r (key bank rail) ≡ some (decoded s)
      → get_state redis cfg now bank rail r ≡ s
  unfolding get_state
  get_state-found now bank rail r s h = rw (h, get_state)

  store_call-fetch :
      (bank rail : String) (c : Call) (r : Store) (s : BreakerState)
      → fetch r (key bank rail) ≡ some (decoded s)
      → fetch (store_call bank rail c r) (key bank rail) ≡ some (decoded (call cfg c s))
  unfolding store_call call evaluate after_evaluate record_probe_result
  store_call-fetch bank rail (evaluation now saved_at stats) r s h =
      rw (get_state-found now bank rail r s h) (write-fetch (key bank rail) _ saved_at r s h)
  store_call-fetch bank rail (probe success now saved_at) r s h =
      rw (get_state-found now bank rail r s h) (elim (Bool-cases (is_half_open s.state)) [
        | inl half ↦ rw half (fetch-put_self r (key bank rail) _)
        | inr whole ↦ rw whole (unfold after_probe in rw whole h)
      ])

  store_call-other :
      (bank rail : String) (c : Call) (r : Store) (j : String)
      → j ≢ key bank rail
      → fetch (store_call bank rail c r) j ≡ fetch r j
  unfolding store_call evaluate record_probe_result
  store_call-other bank rail (evaluation now saved_at stats) r j h =
      write-other (key bank rail) j _ saved_at r h
  store_call-other bank rail (probe success now saved_at) r j h =
      elim (Bool-cases (is_half_open (get_state redis cfg now bank rail r).state)) [
        | inl half ↦ rw half (fetch-put_ne r (key bank rail) j _ h)
        | inr whole ↦ rw whole
      ]

  store_run-fetch :
      (bank rail : String) (cs : List Call) (r : Store) (s : BreakerState)
      → fetch r (key bank rail) ≡ some (decoded s)
      → fetch (store_run bank rail cs r) (key bank rail) ≡ some (decoded (run cfg cs s))
  unfolding store_run run
  store_run-fetch bank rail [] r s h = h
  store_run-fetch bank rail (c ∷ cs) r s h =
      store_run-fetch bank rail cs _ _ (store_call-fetch bank rail c r s h)

  store_run-other :
      (bank rail : String) (cs : List Call) (r : Store) (j : String)
      → j ≢ key bank rail
      → fetch (store_run bank rail cs r) j ≡ fetch r j
  unfolding store_run
  store_run-other bank rail [] r j h = refl
  store_run-other bank rail (c ∷ cs) r j h =
      store_run-other bank rail cs _ j h ∙ store_call-other bank rail c r j h

-- Redis refines the machine of one key: after any calls for a bank and rail, their key holds the state
-- that the calls lead to from the one it held, and every other key holds what it held.
pub store_run-refines :
    (redis : KeyValueStore) (cfg : BreakerConfig) (bank rail : String) (calls : List Call)
    (r : redis.Store) (s : BreakerState)
    → redis.fetch r (key bank rail) ≡ some (decoded s)
    → (redis.fetch (store_run redis cfg bank rail calls r) (key bank rail)
        ≡ some (decoded (run cfg calls s)))
      × ((j : String)
          → j ≢ key bank rail
          → redis.fetch (store_run redis cfg bank rail calls r) j ≡ redis.fetch r j)
store_run-refines redis cfg bank rail calls r s h = (
  store_run-fetch redis cfg bank rail calls r s h,
  λ j other. store_run-other redis cfg bank rail calls r j other,
)

-- The advice to wait: of an open breaker that opened at `t` with the cooldown `c`, asked no earlier
-- than that, the seconds to wait are at most the cooldown, and after them the cooldown ends in less
-- than a second.
pub seconds_left-bounds :
    (cfg : BreakerConfig) (now : ℕ) (s : BreakerState) (t c : ℕ)
    → IsOpen s t c
    → 0 < t
    → 0 < c
    → t ≤ now
    → (seconds_left cfg now s ≤ c)
      × (t + c * second_us < now + (seconds_left cfg now s + 1) * second_us)
unfolding seconds_left cooldown_of
seconds_left-bounds cfg now s t c h tpos cpos later = ground arith
