-- ===== src/Experiments/Analyzer/Computed.antt =====
-- The rates of the arms, and the error of their difference, are always computed.
use revenueguard_ai.Common.{
  ℕ, ◌==◌, ◌≤◌, ◌≡◌, ◌≢◌, ap, ◌∙◌, inl, inr, Bool-cases, Option, some, if◌then◌else◌, arith, ◌||◌,
}
use revenueguard_ai.Common.Floats.{Floats}
use revenueguard_ai.Ingestion.Json.{◌>>=◌}
use revenueguard_ai.Experiments.Analyzer.{rate_of, standard_error, variance, relative_of}

module _ (float : Floats) where
  open float use {
    Float, IsNonnegative, IsAtMostOne, zero, one, of_ℕ, plus, minus, times, quotient, sqrt, is_zero,
  }

  -- A rate is computed, and lies between 0 and 1.
  pub rate_of-IsRate :
      (recovered total : ℕ)
      → recovered ≤ total
      → (q : Float) × (rate_of float recovered total ≡ some q) × IsNonnegative q × IsAtMostOne q
  unfolding rate_of
  rate_of-IsRate recovered total h = elim (Bool-cases (total == 0)) [
    | inl empty ↦ (
      zero,
      ap (λ b. if b then some zero else quotient (of_ℕ recovered) (of_ℕ total)) empty,
      float.zero-IsNonnegative,
      float.zero-IsAtMostOne,
    )
    | inr some_there ↦
        let (q, e, low, high) = float.quotient-of_ℕ recovered total (ground arith) h in
        (
          q,
          ap (λ b. if b then some zero else quotient (of_ℕ recovered) (of_ℕ total)) some_there ∙ e,
          low,
          high,
        )
  ]

  variance-IsNonnegative :
      (rate : Float) (total : ℕ)
      → IsNonnegative rate
      → IsAtMostOne rate
      → total ≢ 0
      → (q : Float) × (variance float rate total ≡ some q) × IsNonnegative q
  variance-IsNonnegative rate total low high nonzero =
      float.quotient-IsNonnegative _ total
        (float.times-IsNonnegative _ _ low (float.minus-IsNonnegative _ high)) nonzero

  pub bind-some :
      {A B : Type 0} {m : Option A} {a : A} (f : A → Option B) → m ≡ some a → (m >>= f) ≡ f a
  bind-some f e = ap (λ m. m >>= f) e

  pub standard_error-some :
      (p : Float) (m : ℕ) (q : Float) (n : ℕ)
      → IsNonnegative p
      → IsAtMostOne p
      → IsNonnegative q
      → IsAtMostOne q
      → (e : Float) × (standard_error float p m q n ≡ some e)
  unfolding standard_error
  standard_error-some p m q n p_low p_high q_low q_high = elim (Bool-cases (m == 0 || n == 0)) [
    | inl empty ↦ (zero, ap (λ b. if b then some zero else both) empty)
    | inr filled ↦
        let (a, ea, la) = variance-IsNonnegative p m p_low p_high (ground arith) in
        let (b, eb, lb) = variance-IsNonnegative q n q_low q_high (ground arith) in
        let (s, es) = float.sqrt-IsNonnegative _ (float.plus-IsNonnegative a b la lb) in
        (
          s,
          ap (λ b. if b then some zero else both) filled
              ∙ bind-some (λ a. variance float q n >>= λ b. sqrt (plus a b)) ea
              ∙ bind-some (λ b. sqrt (plus a b)) eb
              ∙ es,
        )
  ]
    where
      both : Option Float
      both = variance float p m >>= λ a. variance float q n >>= λ b. sqrt (plus a b)

  pub relative_of-some : (lift rate : Float) → (q : Float) × (relative_of float lift rate ≡ some q)
  unfolding relative_of
  relative_of-some lift rate = elim (Bool-cases (is_zero rate)) [
    | inl none_there ↦ (zero, ap (λ b. if b then some zero else quotient lift rate) none_there)
    | inr some_there ↦
        let (q, e) = float.quotient-nonzero lift rate some_there in
        (q, ap (λ b. if b then some zero else quotient lift rate) some_there ∙ e)
  ]
