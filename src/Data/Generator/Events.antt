-- ===== src/Data/Generator/Events.antt =====
-- data/generator.py: what is drawn for an event, and the dictionary of an event.
use revenueguard_ai.Common.{ℕ, ◌≡◌, String, Bool, false, Option}
use revenueguard_ai.Models.{EventType}

-- The draws for one event. `is_below p` says whether the number drawn from [0, 1) is below p
-- hundredths; none is below 0.
pub record Draws : Type 0 where
  pub scenario : ℕ
  pub event_type : ℕ
  pub is_high : Bool
  pub amount : ℕ
  pub payment_method : ℕ
  pub bank : ℕ
  pub first_name : String
  pub last_name : String
  pub phone_start : ℕ
  pub phone_rest : String
  pub upi_handle : ℕ
  pub email_domain : ℕ
  pub language : ℕ
  pub lifetime_value : ℕ
  pub total_transactions : ℕ
  pub failed_transactions : ℕ
  pub opted_out : Bool
  pub card_network : ℕ
  pub event_id : String
  pub customer_suffix : String
  pub payment_suffix : String
  pub order_suffix : String
  pub merchant_suffix : String
  pub timestamp : String
  pub is_below : ℕ → Bool
  pub not_below_zero : is_below 0 ≡ false

pub record SyntheticCustomer : Type 0 where
  pub customer_id : String
  pub name : String
  pub email : String
  pub phone : String
  pub upi_id : Option String
  pub preferred_language : String
  pub lifetime_value_paise : ℕ
  pub total_transactions : ℕ
  pub failed_transactions : ℕ
  pub opted_out : Bool

pub record GroundTruth : Type 0 where
  pub is_recoverable : Bool
  pub expected_recovery_method : String
  pub recovery_difficulty : String

pub record SyntheticEvent : Type 0 where
  pub event_id : String
  pub event_type : EventType
  pub razorpay_payment_id : String
  pub razorpay_order_id : String
  pub amount_paise : ℕ
  pub currency : String
  pub error_source : String
  pub error_step : String
  pub error_reason : String
  pub error_code : String
  pub error_description : String
  pub customer : SyntheticCustomer
  pub merchant_id : String
  pub timestamp : String
  pub payment_method : String
  pub card_network : Option String
  pub bank_name : String
  pub ground_truth : GroundTruth
