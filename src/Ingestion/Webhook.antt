-- ===== src/Ingestion/Webhook.antt =====
-- backend/webhooks/razorpay_handler.py: handle_razorpay_webhook. An exception is answered by a server
-- error, and `get_db` then rolls the session back; otherwise it commits.
pub mod Laws
pub mod Deliveries
pub mod Once
use revenueguard_ai.Common.{
  ℕ, ◌&&◌, ◌++◌, String, Bool, true, false, not, Option, none, some, if◌then◌else◌, str_eq, List,
  [], ◌∷◌, Entry, value, null, missing,
}
use revenueguard_ai.Common.Int.{pos}
use revenueguard_ai.Models.{Settings, detected, Customer, Metadata, dict, FailureSource}
use revenueguard_ai.Models.Enums
use revenueguard_ai.Database.{RecoveryCase, StoredCustomer, WebhookEvent, Database}
use revenueguard_ai.Database.Tables.{by}
use revenueguard_ai.Api.Queue.{RedisClient, enqueue_recovery_case}
use revenueguard_ai.Ingestion.Json.{
  Json, null as json_null, text, object, Members, no_members, get_key, as_members, is_true, ◌>>=◌,
}
use revenueguard_ai.Ingestion.Normalizer.{
  CustomerProfile, EventMetadata, NormalizedFailureEvent, Identifiers, normalize_razorpay_event,
}

-- What the handler takes from outside.
pub record WebhookExternal : Type 0 where
  pub settings : Settings
  -- razorpay's check of the signature of a body
  pub verify : String → String → Bool
  -- json.loads, and `str` of a value
  pub loads : String → Option Json
  pub str : Json → String
  -- the database's driver: a value for a column of texts
  pub as_column : Json → Option String
  pub ids : Identifiers
  pub event_id : String
  -- `none` when no client could be created
  pub redis : Option RedisClient

-- A request: the two headers, where an absent one is "", and the decoded body.
pub record Request : Type 0 where
  pub signature : String
  pub event_id : String
  pub body : String

pub data Received : Type 0 where
  accepted duplicate server_error : Received
  bad_request : String → Received

pub record Response : Type 0 where
  pub reply : Received
  pub database : Database
  pub queue : List String

abbrev pub is_given : String → Bool
is_given String.[] = false
is_given s = true

-- The first that is true of: the event's own id, the header, a new id.
unfoldable pub event_id_of : WebhookExternal → Request → Members → Option String
event_id_of ext request event =
    let own = get_key "event_id" json_null event in
    if is_true own
    then ext.as_column own
    else some (if is_given request.event_id then request.event_id else ext.event_id)

abbrev pub nullable_column : WebhookExternal → Json → Option (Option String)
nullable_column ext json_null = some none
nullable_column ext j = do s ← ext.as_column j; some (some s)

unfoldable pub webhook_record : WebhookExternal → String → Members → Members → Option WebhookEvent
webhook_record ext event_id event entity = do
  event_type ← ext.as_column (get_key "event" (text "unknown") event)
  payment_id ← nullable_column ext (get_key "id" json_null entity)
  order_id ← nullable_column ext (get_key "order_id" json_null entity)
  some (record {
    razorpay_event_id = event_id;
    event_type = event_type;
    payment_id = payment_id;
    order_id = order_id;
    signature_valid = true;
  })

abbrev pub is_payment_failed : Json → Bool
is_payment_failed (text s) = str_eq s "payment.failed"
is_payment_failed _ = false

abbrev source_value : FailureSource → String
source_value Enums.FailureSource.customer = "customer"
source_value Enums.FailureSource.bank = "bank"
source_value Enums.FailureSource.gateway = "gateway"
source_value Enums.FailureSource.network = "network"
source_value Enums.FailureSource.business = "business"
source_value Enums.FailureSource.razorpay = "razorpay"
source_value Enums.FailureSource.unknown = "unknown"

-- A value of the metadata as its readers take it: `str(value or ...)`.
abbrev metadata_entry : WebhookExternal → Json → Entry String
metadata_entry ext j = if is_true j then value (ext.str j) else null

abbrev stored_customer : WebhookExternal → NormalizedFailureEvent → StoredCustomer
stored_customer ext n = record {
  customer = dict (record {
    name = value n.customer.name;
    email = value n.customer.email;
    phone = value n.customer.phone;
    preferred_language = value n.customer.preferred_language;
    lifetime_value_paise = value n.customer.lifetime_value_paise;
    whatsapp_eligible = missing;
    opted_out = value n.customer.opted_out;
  });
  metadata = dict (record {
    bank_name = metadata_entry ext n.metadata.bank_name;
    payment_method = metadata_entry ext n.metadata.payment_method;
  });
  error_description = value n.error_description;
}

unfoldable pub new_case : WebhookExternal → NormalizedFailureEvent → RecoveryCase
new_case ext n = record {
  case_id = n.case_id;
  event_type = n.event_type;
  status = detected;
  external_payment_id = n.external_payment_id;
  external_order_id = n.external_order_id;
  amount_paise = n.amount_paise;
  currency = n.currency;
  failure_category = n.category;
  failure_source = source_value n.source;
  failure_reason = n.reason;
  error_code = n.error_code;
  customer_id = n.customer.customer_id;
  customer_data = stored_customer ext n;
  merchant_id = n.merchant_id;
  recovery_probability = none;
  shap_reason_codes = [];
  experiment_arm = none;
  gateway_health_state = none;
  retry_count = 0;
  last_retry_at = none;
  recovered_at = none;
  recovered_amount_paise = none;
  created_at = ext.ids.now;
  updated_at = none;
}

abbrev pub with_event : WebhookEvent → Database → Database
with_event w db = record db { webhook_events = db.webhook_events ++ w ∷ [] }

-- The unique column `case_id` refuses an id that is there.
abbrev pub add_case : RecoveryCase → Database → Option Database
add_case c db = elim (by (λ r. r.case_id) c.case_id db.cases) [
  | none ↦ some (record db { cases = db.cases ++ c ∷ [] })
  | some r ↦ none
]

-- Only a failed payment becomes a case, which is committed before it is queued.
abbrev pub ingest_case :
    WebhookExternal
    → Members
    → Members
    → Database
    → List String
    → Bool
    → Option (Database × List String)
ingest_case ext event payload db queue false = some (db, queue)
ingest_case ext event payload db queue true = do
  n ← normalize_razorpay_event ext.ids event payload
  db' ← add_case (new_case ext n) db
  some (db', (enqueue_recovery_case ext.redis n.case_id 3 queue).1)

-- What is stored and queued for an event that is new.
unfoldable pub ingest :
    WebhookExternal → String → Members → Database → List String → Option (Database × List String)
ingest ext event_id event db queue = do
  payload ← as_members (get_key "payload" (object no_members) event)
  payment ← as_members (get_key "payment" (object no_members) payload)
  entity ← as_members (get_key "entity" (object no_members) payment)
  w ← webhook_record ext event_id event entity
  ingest_case ext event payload (with_event w db) queue
      (is_payment_failed (get_key "event" (text "unknown") event))

abbrev pub stored_or : Option (Database × List String) → Database → List String → Response
stored_or none db queue = record { reply = server_error; database = db; queue = queue }
stored_or (some (db', queue')) db queue = record {
  reply = accepted;
  database = db';
  queue = queue';
}

abbrev pub deduplicated :
    WebhookExternal → Option String → Members → Database → List String → Response
deduplicated ext none event db queue = stored_or none db queue
deduplicated ext (some id) event db queue =
    elim (by (λ w. w.razorpay_event_id) id db.webhook_events) [
      | none ↦ stored_or (ingest ext id event db queue) db queue
      | some w ↦ record { reply = duplicate; database = db; queue = queue }
    ]

abbrev pub receive : WebhookExternal → Request → Option Json → Database → List String → Response
receive ext request none db queue = record {
  reply = bad_request "Invalid JSON";
  database = db;
  queue = queue;
}
receive ext request (some (object event)) db queue =
    deduplicated ext (event_id_of ext request event) event db queue
receive ext request (some j) db queue = stored_or none db queue

unfoldable pub handle_razorpay_webhook :
    WebhookExternal → Request → Database → List String → Response
handle_razorpay_webhook ext request db queue =
    if ext.settings.webhook_secret_set
      && is_given request.signature
      && not (ext.verify request.body request.signature)
    then record { reply = bad_request "Invalid signature"; database = db; queue = queue }
    else if ext.settings.webhook_secret_set && not (is_given request.signature)
    then record { reply = bad_request "Missing signature"; database = db; queue = queue }
    else receive ext request (ext.loads request.body) db queue
