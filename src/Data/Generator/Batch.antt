-- ===== src/Data/Generator/Batch.antt =====
-- data/generator.py: generate_batch, the buckets one after another, shuffled.
use revenueguard_ai.Common.{
  ℕ, zero, suc, ◌+◌, ◌-◌, ◌*◌, ◌/◌, String, List, [], ◌∷◌, ◌++◌, take, drop, length,
}
use mathlib.Core.List.{Perm}
use revenueguard_ai.Data.Generator.{
  Bucket, systemic, customer, subscription, invoice_checkout, generate_event,
}
use revenueguard_ai.Data.Generator.Events.{Draws, SyntheticEvent}

-- `int(num_events * 0.40)` and so on, of the whole part of each product.
unfoldable pub count_in : ℕ → Bucket → ℕ
count_in num_events systemic = num_events * 40 / 100
count_in num_events customer = num_events * 25 / 100
count_in num_events subscription = num_events * 20 / 100
count_in num_events invoice_checkout =
    num_events - (num_events * 40 / 100 + num_events * 25 / 100 + num_events * 20 / 100)

-- `random.shuffle`
pub record Shuffle : Type 0 where
  pub shuffle : List SyntheticEvent → List SyntheticEvent
  pub shuffle-perm : (events : List SyntheticEvent) → Perm (shuffle events) events

module _ (lower : String → String) (draws : ℕ → Draws) where
  -- The events of one bucket, of the draws from a position on.
  unfoldable pub events_in : Bucket → ℕ → ℕ → List SyntheticEvent
  events_in bucket start zero = []
  events_in bucket start (suc n) =
      generate_event lower bucket (draws start) ∷ events_in bucket (suc start) n

  unfoldable pub events_of : ℕ → List SyntheticEvent
  events_of num_events =
      let a = count_in num_events systemic in
      let b = count_in num_events customer in
      let c = count_in num_events subscription in
      events_in systemic 0 a
      ++ (events_in customer a b
          ++ (events_in subscription (a + b) c
              ++ events_in invoice_checkout (a + b + c) (count_in num_events invoice_checkout)))

  unfoldable pub generate_batch : Shuffle → ℕ → List SyntheticEvent
  generate_batch random num_events = random.shuffle (events_of num_events)

  -- `generate_for_training`: `int(len(events) * 0.8)` of the 2,000 are for the training.
  unfoldable pub generate_for_training : Shuffle → List SyntheticEvent × List SyntheticEvent
  generate_for_training random =
      let events = generate_batch random 2_000 in
      (take (length events * 8 / 10) events, drop (length events * 8 / 10) events)
