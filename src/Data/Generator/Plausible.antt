-- ===== src/Data/Generator/Plausible.antt =====
-- What one generated event is like.
use native.Mathlib.Nat.{mod-lt}
use revenueguard_ai.Common.{
  ℕ, zero, suc, ◌+◌, ◌-◌, ◌%◌, ◌≤◌, ◌<◌, ◌≡◌, refl, ap, String, Bool, true, false, not, ◌&&◌, ◌||◌,
  Option, none, some, List, [], ◌∷◌, if◌then◌else◌, str_eq, leb, All, arith,
}
use revenueguard_ai.Models.{FailureCategory}
use revenueguard_ai.Models.Enums
use revenueguard_ai.Ingestion.Json.{is_word}
use revenueguard_ai.Ingestion.Normalizer.{classify_failure}
use revenueguard_ai.Data.Generator.Tables.{
  at_or_last, choose, Scenario, systemic_failures, customer_failures, subscription_failures,
  invoice_checkout_failures, payment_methods, card_networks,
}
use revenueguard_ai.Data.Generator.{
  Bucket, systemic, customer, subscription, invoice_checkout, randint, least, generate_amount_paise,
  scenarios_for, probability_for, ground_truth, generate_customer, generate_event, upi_or,
}
use revenueguard_ai.Data.Generator.Events.{Draws, SyntheticEvent}

abbrev pub is_known : FailureCategory → Bool
is_known Enums.FailureCategory.unknown = false
is_known _ = true

abbrev pub implies : Bool → Bool → Bool
implies a b = not a || b

abbrev pub is_some : Option String → Bool
is_some none = false
is_some (some s) = true

-- The amount lies between 100 and 500,000 rupees.
abbrev pub has_amount : SyntheticEvent → Bool
has_amount e = leb 10_000 e.amount_paise && leb e.amount_paise 50_000_000

-- At most all and at most 24 of at least one transaction failed.
abbrev pub has_history : SyntheticEvent → Bool
has_history e =
    leb 1 e.customer.total_transactions
    && leb e.customer.failed_transactions e.customer.total_transactions
    && leb e.customer.failed_transactions 24

-- A timeout is one of UPI, with an address; a card's network is there for a card only.
abbrev pub has_method : SyntheticEvent → Bool
has_method e =
    implies (str_eq e.error_reason "timeout")
      (str_eq e.payment_method "upi" && is_some e.customer.upi_id)
    && (implies (is_some e.card_network) (str_eq e.payment_method "card")
        && implies (str_eq e.payment_method "card") (is_some e.card_network))

-- Nothing is to be recovered from a customer who opted out, or of a business failure.
abbrev pub is_spared : SyntheticEvent → Bool
is_spared e =
    implies (e.customer.opted_out || str_eq e.error_source "business")
      (not e.ground_truth.is_recoverable)

-- The webhook's classification knows the failure.
abbrev pub is_classified : SyntheticEvent → Bool
is_classified e = is_known (classify_failure e.error_source e.error_reason)

abbrev pub is_plausible : SyntheticEvent → Bool
is_plausible e =
    has_amount e && (has_history e && (has_method e && (is_spared e && is_classified e)))

-- What holds of all that can be chosen holds of what is chosen.
choose-All :
    {A : Type 0} (P : A → Type 0) (a : A) (l : List A) (n : ℕ)
    → P a
    → All P l
    → P (at_or_last a l n)
choose-All P a [] n p h = p
choose-All P a (b ∷ l) zero p h = p
choose-All P a (b ∷ l) (suc n) p h = choose-All P b l n h.0 h.1

abbrev Classifies : Scenario → Type 0
Classifies s = is_known (classify_failure s.source s.reason) ≡ true

choice-classified : (bucket : Bucket) (n : ℕ) → Classifies (choose (scenarios_for bucket) n)
unfolding scenarios_for classify_failure is_word
choice-classified systemic n =
    choose-All Classifies systemic_failures.first systemic_failures.rest n refl
      (refl, (refl, (refl, (refl, tt))))
choice-classified customer n =
    choose-All Classifies customer_failures.first customer_failures.rest n refl
      (refl, (refl, (refl, tt)))
choice-classified subscription n =
    choose-All Classifies subscription_failures.first subscription_failures.rest n refl
      (refl, (refl, tt))
choice-classified invoice_checkout n =
    choose-All Classifies invoice_checkout_failures.first invoice_checkout_failures.rest n refl
      (refl, (refl, tt))

amount-bounds :
    (high : Bool) (n : ℕ)
    → (10_000 ≤ generate_amount_paise high n) × (generate_amount_paise high n ≤ 50_000_000)
unfolding generate_amount_paise
amount-bounds true n = (ground arith, ground arith)
amount-bounds false n = (ground arith, ground arith)

randint-bounds :
    (low high n : ℕ) → low ≤ high → (low ≤ randint low high n) × (randint low high n ≤ high)
unfolding randint
randint-bounds low high n h =
    let below : n % (high - low + 1) < high - low + 1 = mod-lt n (omega arith) in
    (omega arith, omega arith)

module _ (lower : String → String) (bucket : Bucket) (d : Draws) where
  abbrev pub event : SyntheticEvent
  event = generate_event lower bucket d

  event-amount : has_amount event ≡ true
  unfolding generate_event
  event-amount = let (a, b) = amount-bounds d.is_high d.amount in ground (arith, a, b)

  event-history : has_history event ≡ true
  unfolding generate_event generate_customer
  event-history =
      let (a, b) = randint-bounds 1 240 d.total_transactions (omega arith) in
      let total = randint 1 240 d.total_transactions in
      let (f, g) = randint-bounds 0 (least 24 total) d.failed_transactions (omega arith) in
      let l : least 24 total ≤ 24 = ground arith in
      let m : least 24 total ≤ total = ground arith in ground (arith, a, b, f, g, l, m)

  event-method : has_method event ≡ true
  unfolding generate_event
  event-method = go (str_eq s.reason "timeout")
    where
      s : Scenario
      s = choose (scenarios_for bucket) d.scenario

      chosen : String
      chosen = choose payment_methods d.payment_method

      network : String
      network = choose card_networks d.card_network

      card :
          (t : Bool)
          → (implies (is_some (if t then some network else none)) t
              && implies t (is_some (if t then some network else none)))
            ≡ true
      card true = refl
      card false = refl

      go :
          (t : Bool)
          → (implies t (
                str_eq (if t then "upi" else chosen) "upi"
                && is_some (
                    if t
                    then some (
                        upi_or lower
                          (generate_customer lower d chosen).upi_id
                          (generate_customer lower d chosen).name)
                    else (generate_customer lower d chosen).upi_id))
              && (implies
                    (is_some
                      (if str_eq (if t then "upi" else chosen) "card" then some network else none))
                    (str_eq (if t then "upi" else chosen) "card")
                  && implies (str_eq (if t then "upi" else chosen) "card") (
                      is_some (
                        if str_eq (if t then "upi" else chosen) "card"
                        then some network
                        else none))))
            ≡ true
      go true = refl
      go false = card (str_eq chosen "card")

  event-spared : is_spared event ≡ true
  unfolding generate_event generate_customer ground_truth probability_for
  event-spared =
      go (d.opted_out || str_eq (choose (scenarios_for bucket) d.scenario).source "business") _
    where
      go : (t : Bool) (p : ℕ) → implies t (not (d.is_below (if t then 0 else p))) ≡ true
      go true p = ap not d.not_below_zero
      go false p = refl

  event-classified : is_classified event ≡ true
  unfolding generate_event
  event-classified = choice-classified bucket d.scenario

  pub event-plausible : is_plausible event ≡ true
  event-plausible =
      ground (arith, event-amount, event-history, event-method, event-spared, event-classified)
