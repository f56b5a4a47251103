-- ===== src/Data/Generator.antt =====
-- data/generator.py: SyntheticDataGenerator. What it draws at random for an event is an argument, and
-- so are the texts of Faker; a choice from a list takes the element at the drawn position, whatever
-- the weights. Probabilities are hundredths.
pub mod Tables
pub mod Events
pub mod Batch
pub mod Plausible
pub mod Laws
use Prim.Native.Char.{code}
use Prim.Native.String.{◌++◌}
use revenueguard_ai.Common.{
  ℕ, zero, suc, ◌+◌, ◌-◌, ◌%◌, max, ◌≡◌, String, Bool, true, false, ◌&&◌, ◌||◌, Option, none, some,
  List, [], ◌∷◌, if◌then◌else◌, str_eq, leb, ◌==◌,
}
use revenueguard_ai.Models.{
  EventType, payment_failed, subscription_halted, subscription_pending, invoice_expired,
  invoice_overdue, checkout_abandoned,
}
use revenueguard_ai.Data.Generator.Tables.{
  Choices, choose, Scenario, systemic_failures, customer_failures, subscription_failures,
  invoice_checkout_failures, banks, payment_methods, card_networks, languages, upi_handles,
  email_domains, phone_starts,
}
use revenueguard_ai.Data.Generator.Events.{Draws, SyntheticCustomer, GroundTruth, SyntheticEvent}

pub data Bucket : Type 0 where
  systemic customer subscription invoice_checkout : Bucket

-- `random.randint(low, high)`
unfoldable pub randint : ℕ → ℕ → ℕ → ℕ
randint low high drawn = low + drawn % (high - low + 1)

-- `min(a, b)`
abbrev pub least : ℕ → ℕ → ℕ
least a b = if leb a b then a else b

-- `_scenario_for_bucket`
unfoldable pub event_type_for : Bucket → ℕ → EventType
event_type_for systemic drawn = payment_failed
event_type_for customer drawn = payment_failed
event_type_for subscription drawn =
    choose (record { first = subscription_halted; rest = subscription_pending ∷ [] }) drawn
event_type_for invoice_checkout drawn =
    choose (record { first = invoice_expired; rest = invoice_overdue ∷ checkout_abandoned ∷ [] })
      drawn

unfoldable pub scenarios_for : Bucket → Choices Scenario
scenarios_for systemic = systemic_failures
scenarios_for customer = customer_failures
scenarios_for subscription = subscription_failures
scenarios_for invoice_checkout = invoice_checkout_failures

abbrev pub is_systemic : Bucket → Bool
is_systemic systemic = true
is_systemic _ = false

-- `_generate_amount_paise`, of the number drawn from one of two distributions.
unfoldable pub generate_amount_paise : Bool → ℕ → ℕ
generate_amount_paise is_high amount =
    if is_high then max 500_000 (least 50_000_000 amount) else max 10_000 (least 1_000_000 amount)

-- `probability` of `_ground_truth`
unfoldable pub probability_for : String → String → String → Bool → Bool → ℕ
probability_for error_source error_reason payment_method is_systemic_bucket opted_out =
    if opted_out || str_eq error_source "business"
    then 0
    else if str_eq payment_method "upi" && str_eq error_reason "timeout" && is_systemic_bucket
    then 85
    else if str_eq error_reason "gateway_error"
    then 90
    else if str_eq error_reason "insufficient_funds"
    then 60
    else if str_eq error_reason "card_expired"
    then 70
    else if str_eq error_reason "authentication_failed"
    then 40
    else if str_eq error_reason "incorrect_pin"
    then 30
    else if str_eq error_reason "mandate_revoked"
    then 20
    else if is_systemic_bucket
    then 55
    else 35

-- `method_by_reason.get(error_reason, "none")`
unfoldable pub method_by_reason : String → String
method_by_reason r =
    if str_eq r "payment_failed"
      || str_eq r "gateway_error"
      || str_eq r "server_error"
      || str_eq r "timeout"
    then "smart_retry"
    else if str_eq r "insufficient_funds"
        || str_eq r "authentication_failed"
        || str_eq r "incorrect_pin"
    then "nudge"
    else if str_eq r "card_expired" || str_eq r "mandate_revoked"
    then "payment_link"
    else "none"

abbrev pub difficulty_of : ℕ → String
difficulty_of probability =
    if leb 80 probability then "easy" else if leb 50 probability then "medium" else "hard"

-- `_ground_truth`
unfoldable pub ground_truth : (ℕ → Bool) → ℕ → String → GroundTruth
ground_truth is_below probability error_reason = record {
  is_recoverable = is_below probability;
  expected_recovery_method = if is_below probability then method_by_reason error_reason else "none";
  recovery_difficulty = difficulty_of probability;
}

-- `text.replace(" ", by)`
unfoldable pub replace_spaces : String → String → String
replace_spaces by String.[] = ""
replace_spaces by (String.◌∷◌ c s) =
    let rest = replace_spaces by s in if code c == b' ' then by ++ rest else String.◌∷◌ c rest

module _ (lower : String → String) where
  abbrev pub local_part : Draws → String
  local_part d = replace_spaces "" (lower (d.first_name ++ ("." ++ d.last_name)))

  -- `_generate_customer`
  unfoldable pub generate_customer : Draws → String → SyntheticCustomer
  unfolding randint
  generate_customer d payment_method =
      let total = randint 1 240 d.total_transactions in
      record {
        customer_id = "cust_" ++ d.customer_suffix;
        name = d.first_name ++ (" " ++ d.last_name);
        email = local_part d ++ ("@" ++ choose email_domains d.email_domain);
        phone = "+91" ++ (choose phone_starts d.phone_start ++ d.phone_rest);
        upi_id =
            if str_eq payment_method "upi"
            then some (local_part d ++ ("@" ++ choose upi_handles d.upi_handle))
            else none;
        preferred_language = choose languages d.language;
        lifetime_value_paise = randint 20_000 20_000_000 d.lifetime_value;
        total_transactions = total;
        failed_transactions = randint 0 (least 24 total) d.failed_transactions;
        opted_out = d.opted_out;
      }

  -- A timeout is one of UPI, whatever method was chosen.
  abbrev pub method_for : String → String → String
  method_for error_reason chosen = if str_eq error_reason "timeout" then "upi" else chosen

  -- `customer["upi_id"] or ...`
  abbrev pub upi_or : Option String → String → String
  upi_or none name = replace_spaces "." (lower name) ++ "@ybl"
  upi_or (some s) name = if str_eq s "" then replace_spaces "." (lower name) ++ "@ybl" else s

  abbrev pub upi_for : String → SyntheticCustomer → Option String
  upi_for error_reason c =
      if str_eq error_reason "timeout" then some (upi_or c.upi_id c.name) else c.upi_id

  -- One round of the loop of `generate_batch`.
  unfoldable pub generate_event : Bucket → Draws → SyntheticEvent
  generate_event bucket d =
      let s = choose (scenarios_for bucket) d.scenario in
      let chosen = choose payment_methods d.payment_method in
      let c = generate_customer d chosen in
      let payment_method = method_for s.reason chosen in
      record {
        event_id = d.event_id;
        event_type = event_type_for bucket d.event_type;
        razorpay_payment_id = "pay_" ++ d.payment_suffix;
        razorpay_order_id = "order_" ++ d.order_suffix;
        amount_paise = generate_amount_paise d.is_high d.amount;
        currency = "INR";
        error_source = s.source;
        error_step = s.step;
        error_reason = s.reason;
        error_code = s.error_code;
        error_description = s.description;
        customer = record c { upi_id = upi_for s.reason c };
        merchant_id = "merch_" ++ lower d.merchant_suffix;
        timestamp = d.timestamp;
        payment_method = payment_method;
        card_network =
            if str_eq payment_method "card"
            then some (choose card_networks d.card_network)
            else none;
        bank_name = choose banks d.bank;
        ground_truth =
            ground_truth d.is_below
              (probability_for s.source s.reason payment_method (is_systemic bucket) c.opted_out)
              s.reason;
      }
