-- ===== src/Examples/Windows.antt =====
-- The sliding window on sorted sets that are lists of scores.
use text.Mathlib.TextPositions.{eq_refl}
use text.Mathlib.TextEquality.{eq_iff}
use revenueguard_ai.Common.{
  ℕ, ◌+◌, ◌*◌, ◌≡◌, refl, ◌≢◌, ap, ◌∙◌, String, Bool, true, Bool-cases, inl, inr, ◌&&◌, List, [],
  ◌∷◌, str_eq, if◌then◌else◌, ltb, arith,
}
use revenueguard_ai.Models.Time.{second_us}
use revenueguard_ai.Gateway.Window.{
  GatewayOutcome, success, timeout, five, fifteen, window_key, SortedSets, count_of,
}
use revenueguard_ai.Gateway.Window.Rates.{get_stats}
use revenueguard_ai.Gateway.Window.Banks.{
  has_colon, get_all_banks_health, get_all_banks_health-window_key,
}
use revenueguard_ai.Examples.Numbers.{rounded_down}
use revenueguard_ai.Gateway.Window.Counts.{record_all}
use revenueguard_ai.Gateway.Window.Sliding.{count_of-record_all}

abbrev pub total : (ℕ → Bool) → List ℕ → ℕ
total p [] = 0
total p (t ∷ l) = (if p t then 1 else 0) + total p l

abbrev pub keep : ℕ → List ℕ → List ℕ
keep upto [] = []
keep upto (t ∷ l) = if ltb upto t then t ∷ keep upto l else keep upto l

abbrev pub at_key : String → (List ℕ → List ℕ) → (String → List ℕ) → String → List ℕ
at_key k f r j = if str_eq j k then f (r j) else r j

pub total-at_key :
    (r : String → List ℕ) (k : String) (f : List ℕ → List ℕ) (p : ℕ → Bool)
    → total p (at_key k f r k) ≡ total p (f (r k))
total-at_key r k f p = ap (λ b. total p (if b then f (r k) else r k)) (eq_refl k)

pub total-at_key_ne :
    (r : String → List ℕ) (k j : String) (f : List ℕ → List ℕ) (p : ℕ → Bool)
    → j ≢ k
    → total p (at_key k f r j) ≡ total p (r j)
total-at_key_ne r k j f p h = elim (Bool-cases (str_eq j k)) [
  | inl same ↦ absurd (h ((eq_iff j k).0 same))
  | inr other ↦ ap (λ b. total p (if b then f (r j) else r j)) other
]

pub total-keep :
    (upto : ℕ) (p : ℕ → Bool) (l : List ℕ)
    → total p (keep upto l) ≡ total (λ t. p t && ltb upto t) l
total-keep upto p [] = refl
total-keep upto p (t ∷ l) = elim (Bool-cases (ltb upto t)) [
  | inl kept ↦ ground (arith, total-keep upto p l)
  | inr gone ↦ ground (arith, total-keep upto p l)
]

abbrev pub scores : SortedSets
scores = record {
  Store = String → List ℕ;
  count = λ r k p. total p (r k);
  zadd = λ r k t. at_key k (λ l. t ∷ l) r;
  zremrangebyscore = λ r k upto. at_key k (keep upto) r;
  expire = λ r k. r;
  zcard = λ r k. total (λ t. true) (r k);
  zcard-count = λ r k. refl;
  count-zadd = λ r k t p.
      total-at_key r k (λ l. t ∷ l) p
      ∙ (let e : (if p t then 1 else 0) + total p (r k) ≡ total p (r k) + (if p t then 1 else 0) =
            omega arith in
          e);
  count-zadd_ne = λ r k j t p h. total-at_key_ne r k j (λ l. t ∷ l) p h;
  count-zremrangebyscore = λ r k upto p. total-at_key r k (keep upto) p ∙ total-keep upto p (r k);
  count-zremrangebyscore_ne = λ r k j upto p h. total-at_key_ne r k j (keep upto) p h;
  count-expire = λ r k j p. refl;
}

-- Two successes and a timeout; at the end the first success is just five minutes old.
abbrev outcomes : List (ℕ × GatewayOutcome)
outcomes = (second_us, success) ∷ (2 * second_us, timeout) ∷ (3 * second_us, success) ∷ []

count_of-record_all_example :
    count_of scores "HDFC" "upi"
      (301 * second_us)
      five
      (record_all scores "HDFC" "upi" outcomes (λ k. []))
      success
    ≡ 0 + 1
count_of-record_all_example =
    count_of-record_all scores "HDFC" "upi" (301 * second_us) five success outcomes (λ k. [])
      (omega arith, (omega arith, (omega arith, tt)))

get_all_banks_health-window_key_example :
    get_all_banks_health scores rounded_down second_us
      (λ k. [])
      (window_key "HDFC" "upi" fifteen success ∷ window_key "SBI" "card" fifteen success ∷ [])
    ≡ get_stats scores rounded_down "HDFC" "upi" fifteen second_us (λ k. [])
      ∷ get_stats scores rounded_down "SBI" "card" fifteen second_us (λ k. [])
      ∷ []
unfolding has_colon
get_all_banks_health-window_key_example =
    get_all_banks_health-window_key scores rounded_down second_us (λ k. [])
      (("HDFC", "upi") ∷ ("SBI", "card") ∷ [])
      (((refl, refl), (refl, refl)), (((refl, refl), (refl, refl)), tt))
