-- ===== src/Ml/Features/Laws.antt =====
-- The scorer's own classification against the one of the webhook, and the bounds of the encodings.
use revenueguard_ai.Common.{
  ℕ, ◌≤◌, ◌<◌, ◌≡◌, refl, inl, inr, ◌⊎◌, ◌↔◌, String, Bool, true, false, ◌&&◌, ◌||◌, Bool-cases,
  str_eq, arith,
}
use revenueguard_ai.Models.{category_value}
use revenueguard_ai.Ingestion.Json.{is_word}
use revenueguard_ai.Ingestion.Json.Words.{is_word-other}
use revenueguard_ai.Ingestion.Normalizer.{classify_failure, is_systemic_reason, is_customer_reason}
use revenueguard_ai.Ml.Features.{infer_failure_category, is_bank_fault, exceeded, amount_bucket}

-- The three reasons that only the scorer knows.
abbrev pub is_new_reason : String → Bool
is_new_reason r = is_word r "timeout" || is_word r "wrong_pin" || is_word r "authentication_failed"

module _ (source reason : String) where
  bank_only :
      is_word source "bank" ≡ true
      → (is_word source "business" ≡ false)
        × (is_word source "gateway" ≡ false)
        × (is_word source "network" ≡ false)
        × (is_word source "customer" ≡ false)
  bank_only h = (
    is_word-other source "bank" _ refl h,
    is_word-other source "bank" _ refl h,
    is_word-other source "bank" _ refl h,
    is_word-other source "bank" _ refl h,
  )

  business_only :
      is_word source "business" ≡ true
      → (is_word source "gateway" ≡ false)
        × (is_word source "network" ≡ false)
        × (is_word source "customer" ≡ false)
  business_only h = (
    is_word-other source "business" _ refl h,
    is_word-other source "business" _ refl h,
    is_word-other source "business" _ refl h,
  )

  customer_only :
      is_word source "customer" ≡ true
      → (is_word source "gateway" ≡ false) × (is_word source "network" ≡ false)
  customer_only h =
      (is_word-other source "customer" _ refl h, is_word-other source "customer" _ refl h)

  same_category :
      is_word source "bank" && is_new_reason reason ≡ false
      → infer_failure_category source reason ≡ category_value (classify_failure source reason)
  unfolding infer_failure_category classify_failure category_value
  same_category h = elim (Bool-cases (is_word source "bank")) [
    | inl bank ↦ let (a, b, c, d) = bank_only bank in ground arith
    | inr other ↦ elim (Bool-cases (is_word source "business")) [
      | inl business ↦ let (a, b, c) = business_only business in ground arith
      | inr other2 ↦ elim (Bool-cases (is_word source "customer")) [
        | inl customer ↦ let (a, b) = customer_only customer in ground arith
        | inr other3 ↦ ground arith
      ]
    ]
  ]

  unknown_reason :
      (w : String)
      → str_eq w "payment_failed" ≡ false
      → str_eq w "gateway_error" ≡ false
      → str_eq w "server_error" ≡ false
      → str_eq w "insufficient_funds" ≡ false
      → str_eq w "incorrect_pin" ≡ false
      → str_eq w "card_expired" ≡ false
      → is_word reason w ≡ true
      → (is_systemic_reason reason ≡ false) × (is_customer_reason reason ≡ false)
  unknown_reason w a b c d e f h =
      let a' = is_word-other reason w "payment_failed" a h in
      let b' = is_word-other reason w "gateway_error" b h in
      let c' = is_word-other reason w "server_error" c h in
      let d' = is_word-other reason w "insufficient_funds" d h in
      let e' = is_word-other reason w "incorrect_pin" e h in
      let f' = is_word-other reason w "card_expired" f h in (ground arith, ground arith)

  new_reason :
      is_new_reason reason ≡ true
      → (is_systemic_reason reason ≡ false) × (is_customer_reason reason ≡ false)
  new_reason h = elim (Bool-cases (is_word reason "timeout")) [
    | inl timeout ↦ unknown_reason "timeout" refl refl refl refl refl refl timeout
    | inr other ↦ elim (Bool-cases (is_word reason "wrong_pin")) [
      | inl wrong ↦ unknown_reason "wrong_pin" refl refl refl refl refl refl wrong
      | inr other2 ↦
          unknown_reason "authentication_failed" refl refl refl refl refl refl (ground arith)
    ]
  ]

  new_category :
      is_word source "bank" && is_new_reason reason ≡ true
      → (category_value (classify_failure source reason) ≡ "unknown")
        × ((infer_failure_category source reason ≡ "systemic")
            ⊎ (infer_failure_category source reason ≡ "customer"))
  unfolding infer_failure_category classify_failure category_value
  new_category h =
      let bank : is_word source "bank" ≡ true = ground arith in
      let (a, b, c, d) = bank_only bank in
      let (e, f) = new_reason (ground arith) in
      (
        ground arith,
        elim (Bool-cases (is_bank_fault reason)) [
          | inl systemic ↦ inl (ground arith)
          | inr other ↦ inr (ground arith)
        ],
      )

-- The scorer's classification of a failure is the webhook's, for every source and reason but one kind:
-- a bank's failure for one of three reasons that the webhook does not know. There the webhook's
-- category is unknown, and the scorer's is not.
pub infer_failure_category-classify_failure :
    (source reason : String)
    → (is_word source "bank" && is_new_reason reason ≡ false
        → infer_failure_category source reason ≡ category_value (classify_failure source reason))
      × (is_word source "bank" && is_new_reason reason ≡ true
          → (category_value (classify_failure source reason) ≡ "unknown")
            × ((infer_failure_category source reason ≡ "systemic")
                ⊎ (infer_failure_category source reason ≡ "customer")))
infer_failure_category-classify_failure source reason =
    (same_category source reason, new_category source reason)

-- The bucket of an amount is at most 5, grows with the amount, and is 0 up to the first boundary and
-- 5 above the last one only.
pub amount_bucket_bounds :
    (a b : ℕ)
    → a ≤ b
    → (amount_bucket a ≤ amount_bucket b)
      × (amount_bucket b ≤ 5)
      × ((amount_bucket a ≡ 0) ↔ (a ≤ 20_000))
      × ((amount_bucket a ≡ 5) ↔ (1_000_000 < a))
unfolding amount_bucket exceeded
amount_bucket_bounds a b h = (
  ground arith,
  ground arith,
  (λ e. ground arith, λ e. ground arith),
  (λ e. ground arith, λ e. ground arith),
)
