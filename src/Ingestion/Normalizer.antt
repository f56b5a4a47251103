-- ===== src/Ingestion/Normalizer.antt =====
-- backend/integrations/normalizer.py. The event is a dictionary, and so is its `payload`: the
-- handler has read both before it calls `normalize_razorpay_event`.
use revenueguard_ai.Common.{
  ℕ, ◌||◌, ◌&&◌, String, Bool, false, Option, none, some, if◌then◌else◌, str_eq,
}
use revenueguard_ai.Common.Int.{ℤ, pos}
use revenueguard_ai.Models.{
  EventType, payment_failed, subscription_halted, subscription_pending, checkout_abandoned,
  invoice_expired, invoice_overdue, FailureCategory, FailureSource,
}
use revenueguard_ai.Models.Enums
use revenueguard_ai.Ingestion.Json.{
  Json, null, number, text, array, object, Members, no_members, lookup, get_key, as_members,
  as_text, as_text_or_none, is_word, text_if_true, ◌>>=◌,
}

-- `_BANK_SYSTEMIC_REASONS`, `_BANK_CUSTOMER_REASONS`, of the lower case of a text.
abbrev pub is_systemic_reason : String → Bool
is_systemic_reason r =
    is_word r "payment_failed" || is_word r "gateway_error" || is_word r "server_error"

abbrev pub is_customer_reason : String → Bool
is_customer_reason r =
    is_word r "insufficient_funds" || is_word r "incorrect_pin" || is_word r "card_expired"

-- `_classify_failure`, of texts; "" stands for what is falsy.
unfoldable pub classify_failure : String → String → FailureCategory
classify_failure source reason =
    if is_word source "bank" && is_systemic_reason reason
    then Enums.FailureCategory.systemic
    else if is_word source "bank" && is_customer_reason reason
    then Enums.FailureCategory.customer
    else if is_word source "customer"
    then Enums.FailureCategory.customer
    else if is_word source "gateway" || is_word source "network"
    then Enums.FailureCategory.systemic
    else if is_word source "business"
    then Enums.FailureCategory.business
    else Enums.FailureCategory.unknown

-- `_map_source`
unfoldable pub map_source : String → FailureSource
map_source s =
    if is_word s "customer"
    then Enums.FailureSource.customer
    else if is_word s "bank"
    then Enums.FailureSource.bank
    else if is_word s "gateway"
    then Enums.FailureSource.gateway
    else if is_word s "network"
    then Enums.FailureSource.network
    else if is_word s "business"
    then Enums.FailureSource.business
    else Enums.FailureSource.unknown

abbrev event_type_of : String → EventType
event_type_of s =
    if str_eq s "payment.failed"
    then payment_failed
    else if str_eq s "subscription.halted"
    then subscription_halted
    else if str_eq s "subscription.pending"
    then subscription_pending
    else if str_eq s "checkout.abandoned"
    then checkout_abandoned
    else if str_eq s "invoice.expired"
    then invoice_expired
    else if str_eq s "invoice.overdue"
    then invoice_overdue
    else payment_failed

-- `_map_event_type`: a list or a dictionary is no key.
unfoldable pub map_event_type : Json → Option EventType
map_event_type (text s) = some (event_type_of s)
map_event_type (array l) = none
map_event_type (object m) = none
map_event_type _ = some payment_failed

-- The customer, without the counters, which are 0.
pub record CustomerProfile : Type 0 where
  pub customer_id : String
  pub name : String
  pub email : String
  pub phone : String
  pub upi_id : Option String
  pub preferred_language : String
  pub lifetime_value_paise : ℤ
  pub opted_out : Bool

pub record EventMetadata : Type 0 where
  pub payment_method : Json
  pub bank_name : Json
  pub card_network : Json
  pub wallet : Json
  pub vpa : Json

pub record NormalizedFailureEvent : Type 0 where
  pub case_id : String
  pub event_type : EventType
  pub processor : String
  pub external_payment_id : String
  pub external_order_id : Option String
  pub amount_paise : ℤ
  pub currency : String
  pub category : FailureCategory
  pub source : FailureSource
  pub stage : String
  pub reason : String
  pub error_code : String
  pub error_description : String
  pub customer : CustomerProfile
  pub merchant_id : String
  pub timestamp : ℕ
  pub metadata : EventMetadata

-- `payload[name].get("entity", {})`
abbrev entity_under : Json → Option Json
entity_under holder = do
  members ← as_members holder
  some (get_key "entity" (object no_members) members)

abbrev entity_in : Option Json → Option Json → Option Json → Option Json
entity_in (some payment) subscription invoice = entity_under payment
entity_in none (some subscription) invoice = entity_under subscription
entity_in none none (some invoice) = entity_under invoice
entity_in none none none = some (object no_members)

-- The entity of the payment, the subscription or the invoice.
unfoldable pub payment_entity_of : Members → Option Members
payment_entity_of payload = do
  entity ←
      entity_in (lookup "payment" payload) (lookup "subscription" payload)
        (lookup "invoice" payload)
  as_members entity

-- What the normalizer takes from outside: pydantic's reading of an `int`, the new identifiers of
-- `uuid4`, and the clock.
pub record Identifiers : Type 0 where
  pub as_int : Json → Option ℤ
  pub case_id : String
  pub customer_id : String
  pub now : ℕ

unfoldable pub customer_of : Identifiers → Members → Members → Option CustomerProfile
customer_of ids entity notes = do
  customer_id ← as_text (get_key "customer_id" (text ids.customer_id) notes)
  name ← as_text (get_key "customer_name" (text "Unknown Customer") notes)
  email ← as_text (get_key "email" (text "unknown@example.com") entity)
  phone ← as_text (get_key "contact" (text "+910000000000") entity)
  upi_id ← as_text_or_none (get_key "vpa" null entity)
  some (record {
    customer_id = customer_id;
    name = name;
    email = email;
    phone = phone;
    upi_id = upi_id;
    preferred_language = "en";
    lifetime_value_paise = pos 0;
    opted_out = false;
  })

unfoldable pub normalize_razorpay_event :
    Identifiers → Members → Members → Option NormalizedFailureEvent
normalize_razorpay_event ids raw_event payload = do
  entity ← payment_entity_of payload
  notes ← as_members (get_key "notes" (object no_members) entity)
  customer ← customer_of ids entity notes
  event_type ← map_event_type (get_key "event" (text "payment.failed") raw_event)
  payment_id ← as_text (get_key "id" (text "") entity)
  order_id ← as_text_or_none (get_key "order_id" null entity)
  amount ← ids.as_int (get_key "amount" (number (pos 0)) entity)
  currency ← as_text (get_key "currency" (text "INR") entity)
  source ← text_if_true (get_key "error_source" (text "unknown") entity)
  reason ← as_text (get_key "error_reason" (text "unknown") entity)
  stage ← as_text (get_key "error_step" (text "payment_authorization") entity)
  error_code ← as_text (get_key "error_code" (text "UNKNOWN_ERROR") entity)
  error_description ← as_text (get_key "error_description" (text "Payment failed") entity)
  merchant_id ← as_text (get_key "merchant_id" (text "default_merchant") notes)
  some (record {
    case_id = ids.case_id;
    event_type = event_type;
    processor = "razorpay";
    external_payment_id = payment_id;
    external_order_id = order_id;
    amount_paise = amount;
    currency = currency;
    category = classify_failure source reason;
    source = map_source source;
    stage = stage;
    reason = reason;
    error_code = error_code;
    error_description = error_description;
    customer = customer;
    merchant_id = merchant_id;
    timestamp = ids.now;
    metadata = record {
      payment_method = get_key "method" (text "unknown") entity;
      bank_name = get_key "bank" (text "unknown") entity;
      card_network = get_key "network" null entity;
      wallet = get_key "wallet" null entity;
      vpa = get_key "vpa" null entity;
    };
  })
