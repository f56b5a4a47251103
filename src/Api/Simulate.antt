-- ===== src/Api/Simulate.antt =====
-- backend/api/main.py: simulate_batch, which opens a case for every generated event. The new ids are an
-- argument, as are the moments at which the rows are made. `server_error` is the reply when the database
-- refuses the rows, all of which are one transaction.
pub mod Queueing
pub mod Laws
use Prim.Native.String.{◌++◌}
use revenueguard_ai.Common.{
  ℕ, suc, ◌+◌, ◌&&◌, String, Bool, true, false, Option, none, some, List, [], ◌∷◌, map, length,
  if◌then◌else◌, leb, value, missing,
}
use revenueguard_ai.Common.Int.{ℤ, pos, leb_ℤ, clamp_zero}
use revenueguard_ai.Models.{detected, dict}
use revenueguard_ai.Database.{StoredCustomer, RecoveryCase, Database}
use revenueguard_ai.Ingestion.Json.{◌>>=◌}
use revenueguard_ai.Ingestion.Normalizer.{classify_failure}
use revenueguard_ai.Ingestion.Webhook.{add_case}
use revenueguard_ai.Data.Generator.Events.{Draws, SyntheticEvent}
use revenueguard_ai.Data.Generator.Batch.{Shuffle, generate_batch}
use revenueguard_ai.Api.Queue.{RedisClient, enqueue_recovery_case}

-- For the n-th case: the digits of its id, its moment, and the client's answers to its pushes.
pub record Rows : Type 0 where
  pub hex : ℕ → String
  pub created_at : ℕ → ℕ
  pub client : ℕ → RedisClient

abbrev pub case_id_of : Rows → ℕ → String
case_id_of rows n = "REC-SIM-" ++ rows.hex n

abbrev simulated_customer : SyntheticEvent → StoredCustomer
simulated_customer e = record {
  customer = dict (record {
    name = value e.customer.name;
    email = value e.customer.email;
    phone = value e.customer.phone;
    preferred_language = value e.customer.preferred_language;
    lifetime_value_paise = value (pos e.customer.lifetime_value_paise);
    whatsapp_eligible = missing;
    opted_out = value e.customer.opted_out;
  });
  metadata =
      dict (record { bank_name = value e.bank_name; payment_method = value e.payment_method });
  error_description = value e.error_description;
}

-- The row for an event.
unfoldable pub simulated_case : String → ℕ → SyntheticEvent → RecoveryCase
simulated_case case_id created_at e = record {
  case_id = case_id;
  event_type = e.event_type;
  status = detected;
  external_payment_id = e.razorpay_payment_id;
  external_order_id = some e.razorpay_order_id;
  amount_paise = pos e.amount_paise;
  currency = e.currency;
  failure_category = classify_failure e.error_source e.error_reason;
  failure_source = e.error_source;
  failure_reason = e.error_reason;
  error_code = e.error_code;
  customer_id = e.customer.customer_id;
  customer_data = simulated_customer e;
  merchant_id = e.merchant_id;
  recovery_probability = none;
  shap_reason_codes = [];
  experiment_arm = none;
  gateway_health_state = none;
  retry_count = 0;
  last_retry_at = none;
  recovered_at = none;
  recovered_amount_paise = none;
  created_at = created_at;
  updated_at = none;
}

-- The rows for the events, which are numbered from a position on.
unfoldable pub simulated_cases : Rows → ℕ → List SyntheticEvent → List RecoveryCase
simulated_cases rows n [] = []
simulated_cases rows n (e ∷ events) =
    simulated_case (case_id_of rows n) (rows.created_at n) e ∷ simulated_cases rows (suc n) events

-- `db.commit()` of the new rows.
unfoldable pub add_cases : List RecoveryCase → Database → Option Database
add_cases [] db = some db
add_cases (c ∷ cases) db = add_case c db >>= λ db'. add_cases cases db'

-- The loop that queues the ids: how many were, and the queue.
unfoldable pub enqueue_all : Bool → Rows → ℕ → List String → List String → ℕ × List String
enqueue_all connected rows n [] queue = (0, queue)
enqueue_all connected rows n (case_id ∷ ids) queue =
    let (pushed, queue') =
      enqueue_recovery_case (if connected then some (rows.client n) else none) case_id 3 queue in
    let (count, queue'') = enqueue_all connected rows (suc n) ids queue' in
    ((if pushed then count + 1 else count), queue'')

pub data BatchReply : Type 0 where
  created : (count queued : ℕ) (case_ids : List String) → BatchReply
  refused server_error : BatchReply

pub record Simulated : Type 0 where
  pub reply : BatchReply
  pub database : Database
  pub queue : List String

abbrev pub ids_of : List RecoveryCase → List String
ids_of cases = map (λ c. c.case_id) cases

abbrev pub committed :
    Bool → Rows → List RecoveryCase → Database → List String → Option Database → Simulated
committed connected rows cases db queue none = record {
  reply = server_error;
  database = db;
  queue = queue;
}
committed connected rows cases db queue (some db') =
    let (queued, queue') = enqueue_all connected rows 0 (ids_of cases) queue in
    record { reply = created (length cases) queued (ids_of cases); database = db'; queue = queue' }

module _ (lower : String → String) (draws : ℕ → Draws) (random : Shuffle) where
  -- The body's count lies between 1 and 2,000.
  unfoldable pub simulate_batch : Bool → Rows → ℤ → Database → List String → Simulated
  simulate_batch connected rows count db queue =
      let cases = simulated_cases rows 0 (generate_batch lower draws random (clamp_zero count)) in
      if leb_ℤ (pos 1) count && leb_ℤ count (pos 2_000)
      then committed connected rows cases db queue (add_cases cases db)
      else record { reply = refused; database = db; queue = queue }
