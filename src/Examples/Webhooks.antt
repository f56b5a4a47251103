-- ===== src/Examples/Webhooks.antt =====
-- A failed payment is delivered, and delivered again.
use revenueguard_ai.Common.{◌≡◌, refl, ◌≢◌, String, true, Option, none, some, []}
use revenueguard_ai.Common.Int.{ℤ, pos}
use revenueguard_ai.Models.{default_settings}
use revenueguard_ai.Database.{Database}
use revenueguard_ai.Api.Queue.{answered}
use revenueguard_ai.Ingestion.Json.{
  Json, number, text, object, Members, no_members, member, lookup, get_key, is_true,
}
use revenueguard_ai.Ingestion.Normalizer.{
  map_event_type, payment_entity_of, customer_of, normalize_razorpay_event,
}
use revenueguard_ai.Ingestion.Webhook.{
  WebhookExternal, Request, accepted, event_id_of, webhook_record, new_case, ingest,
  handle_razorpay_webhook,
}
use revenueguard_ai.Ingestion.Webhook.Deliveries.{Delivered, handle_razorpay_webhook-Delivered}
use revenueguard_ai.Ingestion.Webhook.Once.{
  HasUniqueKeys, handle_razorpay_webhook-HasUniqueKeys, handle_razorpay_webhook_once,
}
use revenueguard_ai.Examples.World.{small_case, database_of, noon}

abbrev payment : Members
payment = member "id" (text "pay_2") (
    member "amount" (number (pos 250_000)) (
      member "error_source" (text "bank")
        (member "error_reason" (text "PAYMENT_FAILED") no_members)))

abbrev event : Members
event = member "event_id" (text "evt_1") (
    member "event" (text "payment.failed") (
      member "payload"
        (object
          (member "payment" (object (member "entity" (object payment) no_members)) no_members))
        no_members))

abbrev int_of : Json → Option ℤ
int_of (number z) = some z
int_of _ = none

abbrev column_of : Json → Option String
column_of (text s) = some s
column_of _ = none

abbrev outside : WebhookExternal
outside = record {
  settings = record default_settings { webhook_secret_set = true };
  verify = λ body signature. true;
  loads = λ body. some (object event);
  str = λ j. "";
  as_column = column_of;
  ids = record { as_int = int_of; case_id = "REC-2"; customer_id = "CUST-2"; now = noon };
  event_id = "evt_new";
  redis = some (λ n. answered);
}

abbrev delivery : Request
delivery = record { signature = "signed"; event_id = ""; body = "{}" }

abbrev one : Database
one = database_of small_case []

accepted_once : (handle_razorpay_webhook outside delivery one []).reply ≡ accepted
unfolding handle_razorpay_webhook event_id_of webhook_record new_case ingest get_key lookup is_true
    normalize_razorpay_event customer_of payment_entity_of map_event_type
accepted_once = refl

has_id : event_id_of outside delivery event ≡ some "evt_1"
unfolding event_id_of get_key lookup is_true
has_id = refl

one-HasUniqueKeys : HasUniqueKeys one
one-HasUniqueKeys = record { events = tt; cases = (tt, tt) }

handle_razorpay_webhook-Delivered_example :
    Delivered outside delivery one [] (handle_razorpay_webhook outside delivery one [])
handle_razorpay_webhook-Delivered_example =
    handle_razorpay_webhook-Delivered outside delivery one []

handle_razorpay_webhook-HasUniqueKeys_example :
    HasUniqueKeys (handle_razorpay_webhook outside delivery one []).database
handle_razorpay_webhook-HasUniqueKeys_example =
    handle_razorpay_webhook-HasUniqueKeys outside delivery one [] one-HasUniqueKeys

handle_razorpay_webhook_once_example :
    let h = handle_razorpay_webhook outside delivery one [] in
    let h' = handle_razorpay_webhook outside delivery h.database h.queue in
    (h'.reply ≢ accepted) × (h'.database ≡ h.database) × (h'.queue ≡ h.queue)
handle_razorpay_webhook_once_example =
    handle_razorpay_webhook_once outside outside delivery delivery one [] event event "evt_1"
      accepted_once refl has_id refl has_id
