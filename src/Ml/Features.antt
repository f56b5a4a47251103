-- ===== src/Ml/Features.antt =====
-- backend/ml/feature_engineering.py: the features that are computed by rules. A text is compared
-- by its lower case, as `_enum_value` and `extract_features` make it.
pub mod Laws
use revenueguard_ai.Common.{
  ℕ, ◌+◌, ◌*◌, String, Bool, ◌&&◌, ◌||◌, Option, none, some, List, [], ◌∷◌, if◌then◌else◌, ltb, leb,
  missing, null, value, Entry, or_default, get,
}
use revenueguard_ai.Common.Int.{ℤ, pos, clamp_zero}
use revenueguard_ai.Ingestion.Json.{is_word}

-- The reasons that `_infer_failure_category` lists for a bank.
abbrev pub is_bank_fault : String → Bool
is_bank_fault r =
    is_word r "payment_failed"
    || is_word r "gateway_error"
    || is_word r "server_error"
    || is_word r "timeout"

abbrev pub is_customer_fault : String → Bool
is_customer_fault r =
    is_word r "insufficient_funds"
    || is_word r "incorrect_pin"
    || is_word r "wrong_pin"
    || is_word r "card_expired"
    || is_word r "authentication_failed"

-- `_infer_failure_category`
unfoldable pub infer_failure_category : String → String → String
infer_failure_category source reason =
    if is_word source "business"
    then "business"
    else if is_word source "gateway" || is_word source "network"
    then "systemic"
    else if is_word source "customer"
    then "customer"
    else if is_word source "bank" && is_bank_fault reason
    then "systemic"
    else if is_word source "bank" && is_customer_fault reason
    then "customer"
    else "unknown"

-- `FAILURE_CATEGORY_ENCODING.get(category, 3)`
unfoldable pub encode_category : String → ℕ
encode_category s =
    if is_word s "customer"
    then 0
    else if is_word s "systemic"
    then 1
    else if is_word s "business"
    then 2
    else 3

-- `FAILURE_SOURCE_ENCODING.get(source, 4)`
unfoldable pub encode_source : String → ℕ
encode_source s =
    if is_word s "customer"
    then 0
    else if is_word s "bank"
    then 1
    else if is_word s "gateway"
    then 2
    else if is_word s "network"
    then 3
    else 4

-- `PAYMENT_METHOD_ENCODING.get(method, 3)`
unfoldable pub encode_method : String → ℕ
encode_method s =
    if is_word s "upi"
    then 0
    else if is_word s "card"
    then 1
    else if is_word s "netbanking"
    then 2
    else 3

-- `boundaries`
abbrev pub boundaries : List ℕ
boundaries = 20_000 ∷ 50_000 ∷ 100_000 ∷ 500_000 ∷ 1_000_000 ∷ []

-- How many boundaries an amount exceeds.
unfoldable pub exceeded : ℕ → List ℕ → ℕ
exceeded amount [] = 0
exceeded amount (b ∷ bs) = (if ltb b amount then 1 else 0) + exceeded amount bs

-- `_amount_bucket`
unfoldable pub amount_bucket : ℕ → ℕ
unfolding exceeded
amount_bucket amount_paise = exceeded amount_paise boundaries

-- `int(10 <= hour < 14 or 19 <= hour < 23)`
unfoldable pub is_peak_hours : ℕ → ℕ
is_peak_hours hour = if leb 10 hour && ltb hour 14 || leb 19 hour && ltb hour 23 then 1 else 0

-- `max(0, int(event.get("amount_paise") or 0))`
unfoldable pub amount_feature : Entry ℤ → ℕ
amount_feature e = clamp_zero (or_default (get e none) (pos 0))

-- `max(0, int(prior_retry_count or 0))`: the event's own count, where it is not `None`, and otherwise
-- the metadata's, under either of two keys.
unfoldable pub prior_retries : Entry ℤ → Entry ℤ → Entry ℤ → ℕ
prior_retries (value n) in_metadata retry_count = clamp_zero n
prior_retries _ in_metadata retry_count =
    clamp_zero (or_default (get in_metadata (get retry_count (some (pos 0)))) (pos 0))
