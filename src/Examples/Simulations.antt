-- ===== src/Examples/Simulations.antt =====
-- Two generated events, whose cases are opened beside another one.
use text.Mathlib.TextEquality.{eq_iff}
use mathlib.Core.List.Perm
use revenueguard_ai.Common.{if◌then◌else◌, ◌+◌}
use revenueguard_ai.Common.{
  ℕ, zero, suc, ◌+◌, ◌<◌, ◌≡◌, ◌≢◌, refl, true, false, String, none, List, [], ◌++◌, length, All,
  arith, ltb,
}
use revenueguard_ai.Common.Int.{pos}
use revenueguard_ai.Database.{RecoveryCase, Database}
use revenueguard_ai.Database.Tables.{by, IsUnique}
use revenueguard_ai.Data.Generator.Events.{Draws}
use revenueguard_ai.Data.Generator.Batch.{Shuffle}
use revenueguard_ai.Api.Queue.{answered, unanswered}
use revenueguard_ai.Api.Simulate.{Rows, case_id_of, created, ids_of, simulate_batch}
use revenueguard_ai.Api.Queue.Laws.{unanswered_among}
use revenueguard_ai.Api.Simulate.Queueing.{Queued}
use revenueguard_ai.Api.Simulate.Laws.{AreFresh, is_new_case, simulate_batch-created}
use revenueguard_ai.Examples.World.{small_case, database_of}

abbrev draw : ℕ → Draws
draw n = record {
  scenario = n;
  event_type = 0;
  is_high = false;
  amount = 80_000;
  payment_method = 1;
  bank = 0;
  first_name = "Asha";
  last_name = "Rao";
  phone_start = 3;
  phone_rest = "000000000";
  upi_handle = 0;
  email_domain = 0;
  language = 0;
  lifetime_value = 0;
  total_transactions = 9;
  failed_transactions = 2;
  opted_out = false;
  card_network = 0;
  event_id = "event";
  customer_suffix = "a";
  payment_suffix = "a";
  order_suffix = "a";
  merchant_suffix = "a";
  timestamp = "";
  is_below = λ p. ltb 0 p;
  not_below_zero = refl;
}

abbrev unshuffled : Shuffle
unshuffled = record { shuffle = λ events. events; shuffle-perm = λ events. Perm.rfl }

abbrev hex : ℕ → String
hex zero = "A"
hex (suc n) = "B"

-- The pushes of the second case fail.
abbrev rows : Rows
rows = record {
  hex = hex;
  created_at = λ n. n;
  client = λ n attempt. if ltb n 1 then answered else unanswered;
}

abbrev db : Database
db = database_of small_case []

fresh : AreFresh rows 0 2 db.cases
fresh = (free, apart)
  where
    free : (i : ℕ) → i < 2 → by (λ r. r.case_id) (case_id_of rows (0 + i)) db.cases ≡ none
    free zero h = refl
    free (suc zero) h = refl
    free (suc (suc i)) h = absurd (omega arith)

    apart : (i j : ℕ) → i < j → j < 2 → case_id_of rows (0 + i) ≢ case_id_of rows (0 + j)
    apart zero (suc zero) less below = λ e. cc ((eq_iff "REC-SIM-A" "REC-SIM-B").1 e)
    apart i zero less below = absurd (omega arith)
    apart (suc i) (suc zero) less below = absurd (omega arith)
    apart i (suc (suc j)) less below = absurd (omega arith)

simulate_batch-created_example :
    (new : List RecoveryCase) × (queued : ℕ) × (queue' : List String) × (simulate_batch
        (λ s. s)
        draw
        unshuffled
        true
        rows
        (pos 2)
        db
        []
      ≡ record {
        reply = created 2 queued (ids_of new);
        database = record db { cases = db.cases ++ new };
        queue = queue';
      })
    × (length new ≡ 2)
    × IsUnique (λ r. r.case_id) (db.cases ++ new)
    × All (λ c. is_new_case rows c ≡ true) new
    × Queued (λ k. unanswered_among (rows.client k) 0 3) 0 (ids_of new) [] queued queue'
simulate_batch-created_example =
    simulate_batch-created (λ s. s) draw unshuffled true rows 2 db [] fresh (tt, tt) (omega arith)
      (omega arith)
