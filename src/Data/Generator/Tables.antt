-- ===== src/Data/Generator/Tables.antt =====
-- data/generator.py: the lists that SyntheticDataGenerator chooses from.
use revenueguard_ai.Common.{ℕ, zero, suc, String, List, [], ◌∷◌}

-- A list with at least one element.
pub record Choices (A : Type 0) : Type 0 where
  pub first : A
  pub rest : List A

abbrev pub at_or_last : {A : Type 0} → A → List A → ℕ → A
at_or_last a [] n = a
at_or_last a (b ∷ l) zero = a
at_or_last a (b ∷ l) (suc n) = at_or_last b l n

abbrev pub choose : {A : Type 0} → Choices A → ℕ → A
choose choices drawn = at_or_last choices.first choices.rest drawn

pub record Scenario : Type 0 where
  pub source : String
  pub step : String
  pub reason : String
  pub error_code : String
  pub description : String

abbrev scenario : String → String → String → String → String → Scenario
scenario source step reason error_code description = record {
  source = source;
  step = step;
  reason = reason;
  error_code = error_code;
  description = description;
}

abbrev pub systemic_failures : Choices Scenario
systemic_failures = record {
  first =
      scenario "bank" "payment_authorization" "payment_failed" "BAD_REQUEST_ERROR"
        "Payment failed at the bank due to a temporary issue";
  rest =
      (scenario "bank" "payment_authorization" "gateway_error" "GATEWAY_ERROR"
        "The bank gateway was temporarily unavailable")
      ∷ (scenario "bank" "payment_authorization" "server_error" "SERVER_ERROR"
          "The bank server did not respond in time")
      ∷ (scenario "network" "payment_authorization" "timeout" "SERVER_ERROR"
          "UPI payment timed out before authorization completed")
      ∷ (scenario "gateway" "payment_authorization" "gateway_error" "GATEWAY_ERROR"
          "The payment gateway returned a temporary error")
      ∷ [];
}

abbrev pub customer_failures : Choices Scenario
customer_failures = record {
  first =
      scenario "bank" "payment_authorization" "insufficient_funds" "BAD_REQUEST_ERROR"
        "Payment failed because the account has insufficient funds";
  rest =
      (scenario "bank" "payment_authentication" "incorrect_pin" "BAD_REQUEST_ERROR"
        "Payment failed because an incorrect PIN was entered")
      ∷ (scenario "bank" "payment_authentication" "card_expired" "BAD_REQUEST_ERROR"
          "Payment failed because the card has expired")
      ∷ (scenario "customer" "payment_authentication" "authentication_failed" "BAD_REQUEST_ERROR"
          "Payment authentication failed")
      ∷ [];
}

abbrev pub subscription_failures : Choices Scenario
subscription_failures = record {
  first =
      scenario "customer" "payment_authentication" "mandate_revoked" "BAD_REQUEST_ERROR"
        "The customer revoked the recurring payment mandate";
  rest =
      (scenario "bank" "payment_authorization" "insufficient_funds" "BAD_REQUEST_ERROR"
        "Recurring payment failed because the account has insufficient funds")
      ∷ (scenario "gateway" "payment_authorization" "gateway_error" "GATEWAY_ERROR"
          "Recurring payment failed due to a temporary gateway error")
      ∷ [];
}

abbrev pub invoice_checkout_failures : Choices Scenario
invoice_checkout_failures = record {
  first =
      scenario "customer" "payment_authentication" "authentication_failed" "BAD_REQUEST_ERROR"
        "Customer did not complete payment authentication";
  rest =
      (scenario "business" "payment_authorization" "business_rule_violation" "BAD_REQUEST_ERROR"
        "Transaction was blocked by merchant business rules")
      ∷ (scenario "gateway" "payment_authorization" "gateway_error" "GATEWAY_ERROR"
          "Checkout payment failed due to a gateway error")
      ∷ [];
}

abbrev pub banks : Choices String
banks = record {
  first = "SBI";
  rest =
      "HDFC" ∷ "ICICI" ∷ "Axis" ∷ "Kotak" ∷ "PNB" ∷ "BOB" ∷ "Canara" ∷ "Union Bank" ∷ "IDFC First"
      ∷ "Yes Bank" ∷ "Federal Bank" ∷ [];
}

abbrev pub payment_methods : Choices String
payment_methods = record { first = "upi"; rest = "card" ∷ "netbanking" ∷ "wallet" ∷ [] }

abbrev pub card_networks : Choices String
card_networks = record { first = "Visa"; rest = "Mastercard" ∷ "RuPay" ∷ [] }

abbrev pub languages : Choices String
languages = record { first = "en"; rest = "hi" ∷ "hinglish" ∷ [] }

abbrev pub upi_handles : Choices String
upi_handles = record {
  first = "sbi";
  rest = "hdfc" ∷ "icici" ∷ "axisbank" ∷ "kotak" ∷ "paytm" ∷ "okhdfcbank" ∷ "ybl" ∷ [];
}

abbrev pub email_domains : Choices String
email_domains = record {
  first = "gmail.com";
  rest = "yahoo.com" ∷ "outlook.com" ∷ "rediffmail.com" ∷ [];
}

-- `random.choice(["6", "7", "8", "9"])`
abbrev pub phone_starts : Choices String
phone_starts = record { first = "6"; rest = "7" ∷ "8" ∷ "9" ∷ [] }
