-- ===== src/Examples/Numbers.antt =====
-- Arithmetic on whole numbers in the place of floating point.
use native.Mathlib.Nat.{div-eq_of_lt, div_self, div-mul-le_self, lt-div-mul-add}
use revenueguard_ai.Common.{true, false, not, zero, Bool}
use revenueguard_ai.Common.{
  ℕ, zero, suc, ◌+◌, ◌*◌, ◌/◌, ◌≤◌, ◌<◌, ◌≡◌, ◌≢◌, refl, ap, inl, inr, Bool, false, Bool-cases,
  Option, none, some, if◌then◌else◌, leb, ltb, ◌==◌, arith,
}
use revenueguard_ai.Common.Int.{ℤ, pos, negsuc, ◌+ℤ◌, ◌-ℤ◌, ◌≤ℤ◌, ltb_ℤ}
use revenueguard_ai.Common.Floats.{Floats}
use revenueguard_ai.Gateway.Window.Rates.{Rates}

abbrev pub times : ℤ → ℤ → ℤ
times (pos a) (pos b) = pos (a * b)
times (negsuc a) (negsuc b) = pos (suc a * suc b)
times _ _ = pos 0

abbrev pub is_zero : ℤ → Bool
is_zero (pos n) = n == 0
is_zero (negsuc n) = false

-- Of a negative number only the sign matters here.
abbrev pub quotient_by : ℤ → ℤ → ℤ
quotient_by (pos a) (pos b) = pos (a / b)
quotient_by _ _ = negsuc 0

abbrev pub quotient : ℤ → ℤ → Option ℤ
quotient x y = if is_zero y then none else some (quotient_by x y)

-- The greatest root up to a number.
abbrev pub root_upto : ℕ → ℕ → ℕ
root_upto zero n = 0
root_upto (suc k) n = let rest = root_upto k n in if leb (suc k * suc k) n then suc k else rest

abbrev pub root : ℤ → Option ℤ
root (pos n) = some (pos (root_upto n n))
root (negsuc n) = none

pub quotient-of_ℕ :
    (a b : ℕ)
    → b ≢ 0
    → a ≤ b
    → (q : ℤ) × (quotient (pos a) (pos b) ≡ some q) × (pos 0 ≤ℤ q) × (q ≤ℤ pos 1)
quotient-of_ℕ a b h le = (pos (a / b), ground arith, omega arith, small)
  where
    small : a / b + 0 ≤ 1 + 0
    small = elim (Bool-cases (ltb a b)) [
      | inl less ↦ let below : a < b = ground arith in let e = div-eq_of_lt below in omega arith
      | inr same ↦
          let e : a ≡ b = ground arith in
          let f : b / b ≡ 1 = div_self (omega arith) in
          let g : a / b ≡ b / b = ap (λ n. n / b) e in omega arith
    ]

pub quotient-nonzero : (x y : ℤ) → is_zero y ≡ false → (q : ℤ) × (quotient x y ≡ some q)
quotient-nonzero x y h = (quotient_by x y, ap (λ b. if b then none else some (quotient_by x y)) h)

pub quotient-nonnegative :
    (x : ℤ) (n : ℕ) → pos 0 ≤ℤ x → n ≢ 0 → (q : ℤ) × (quotient x (pos n) ≡ some q) × (pos 0 ≤ℤ q)
quotient-nonnegative (pos a) n low h = (pos (a / n), ground arith, omega arith)
quotient-nonnegative (negsuc a) n low h = absurd (omega arith)

pub times-nonnegative : (x y : ℤ) → pos 0 ≤ℤ x → pos 0 ≤ℤ y → pos 0 ≤ℤ times x y
times-nonnegative (pos a) (pos b) p q = omega arith
times-nonnegative (pos a) (negsuc b) p q = absurd (omega arith)
times-nonnegative (negsuc a) y p q = absurd (omega arith)

pub plus-nonnegative : (x y : ℤ) → pos 0 ≤ℤ x → pos 0 ≤ℤ y → pos 0 ≤ℤ x +ℤ y
unfolding ◌+ℤ◌
plus-nonnegative x y p q = ground arith

pub minus-nonnegative : (x : ℤ) → x ≤ℤ pos 1 → pos 0 ≤ℤ pos 1 -ℤ x
unfolding ◌-ℤ◌
minus-nonnegative x h = ground arith

pub root-nonnegative : (x : ℤ) → pos 0 ≤ℤ x → (q : ℤ) × (root x ≡ some q)
root-nonnegative (pos n) h = (_, refl)
root-nonnegative (negsuc n) h = absurd (omega arith)

-- It stands for NaN.
abbrev pub is_minus_one : ℤ → Bool
is_minus_one (negsuc zero) = true
is_minus_one _ = false

abbrev pub whole_numbers : Floats
whole_numbers = record {
  Float = ℤ;
  IsNonnegative = λ x. pos 0 ≤ℤ x;
  IsAtMostOne = λ x. x ≤ℤ pos 1;
  zero = pos 0;
  one = pos 1;
  literal = λ n. pos (n / 10_000);
  of_ℕ = λ n. pos n;
  plus = ◌+ℤ◌;
  minus = ◌-ℤ◌;
  times = times;
  quotient = quotient;
  sqrt = root;
  is_zero = is_zero;
  less = ltb_ℤ;
  is_finite = λ x. not (is_minus_one x);
  zero-IsNonnegative = omega arith;
  zero-IsAtMostOne = omega arith;
  quotient-of_ℕ = quotient-of_ℕ;
  quotient-nonzero = quotient-nonzero;
  quotient-IsNonnegative = quotient-nonnegative;
  minus-IsNonnegative = minus-nonnegative;
  plus-IsNonnegative = plus-nonnegative;
  times-IsNonnegative = times-nonnegative;
  sqrt-IsNonnegative = root-nonnegative;
}

-- Millionths, rounded down.
abbrev pub rate : ℕ → ℕ → ℕ
rate n total = if total == 0 then 0 else n * 1_000_000 / total

pub rate_high : (n total : ℕ) → n ≤ total → rate n total * total ≤ n * 1_000_000 + total
rate_high n total h = elim (Bool-cases (total == 0)) [
  | inl empty ↦
      let e : rate n total * total ≡ 0 * total =
        ap (λ b. (if b then 0 else n * 1_000_000 / total) * total) empty in
      ground arith
  | inr filled ↦
      let e : rate n total * total ≡ n * 1_000_000 / total * total =
        ap (λ b. (if b then 0 else n * 1_000_000 / total) * total) filled in
      let positive : 0 < total = ground arith in
      omega (arith, e, div-mul-le_self (n * 1_000_000) total)
]

pub rate_low : (n total : ℕ) → n ≤ total → n * 1_000_000 ≤ rate n total * total + total
rate_low n total h = elim (Bool-cases (total == 0)) [
  | inl empty ↦
      let e : rate n total * total ≡ 0 * total =
        ap (λ b. (if b then 0 else n * 1_000_000 / total) * total) empty in
      ground arith
  | inr filled ↦
      let e : rate n total * total ≡ n * 1_000_000 / total * total =
        ap (λ b. (if b then 0 else n * 1_000_000 / total) * total) filled in
      let positive : 0 < total = ground arith in
      omega (arith, e, lt-div-mul-add {a = n * 1_000_000} positive)
]

abbrev pub rounded_down : Rates
rounded_down = record {
  rate = rate;
  rate_zero = λ n. refl;
  rate_high = rate_high;
  rate_low = rate_low;
}
