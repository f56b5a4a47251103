-- ===== src/Common/Floats.antt =====
-- Python's `float`, as the program relies on it. `none` is an exception: a division by zero, or the
-- square root of what is below zero. Of two natural numbers a ≤ b, with b not 0, the quotient lies
-- between 0 and 1.
use Prim.Native.Nat.{ℕ, ◌≤◌}
use mathlib.Core.Path.{◌≡◌}
use mathlib.Core.Logic.{◌≢◌}
use mathlib.Core.Bool.{Bool, false}
use mathlib.Core.Option.{Option, some}

pub record Floats : Type 1 where
  pub Float : Type 0
  -- numbers that are at least 0, and those that are at most 1
  pub IsNonnegative : Float → Type 0
  pub IsAtMostOne : Float → Type 0
  pub zero : Float
  pub one : Float
  -- a decimal literal: the number of ten-thousandths
  pub literal : ℕ → Float
  pub of_ℕ : ℕ → Float
  pub plus : Float → Float → Float
  pub minus : Float → Float → Float
  pub times : Float → Float → Float
  pub quotient : Float → Float → Option Float
  pub sqrt : Float → Option Float
  pub is_zero : Float → Bool
  pub less : Float → Float → Bool
  -- neither infinite nor NaN; of no number is it assumed
  pub is_finite : Float → Bool
  pub zero-IsNonnegative : IsNonnegative zero
  pub zero-IsAtMostOne : IsAtMostOne zero
  pub quotient-of_ℕ :
      (a b : ℕ)
      → b ≢ 0
      → a ≤ b
      → (q : Float) × (quotient (of_ℕ a) (of_ℕ b) ≡ some q) × IsNonnegative q × IsAtMostOne q
  pub quotient-nonzero : (x y : Float) → is_zero y ≡ false → (q : Float) × (quotient x y ≡ some q)
  pub quotient-IsNonnegative :
      (x : Float) (n : ℕ)
      → IsNonnegative x
      → n ≢ 0
      → (q : Float) × (quotient x (of_ℕ n) ≡ some q) × IsNonnegative q
  pub minus-IsNonnegative : (x : Float) → IsAtMostOne x → IsNonnegative (minus one x)
  pub plus-IsNonnegative :
      (x y : Float) → IsNonnegative x → IsNonnegative y → IsNonnegative (plus x y)
  pub times-IsNonnegative :
      (x y : Float) → IsNonnegative x → IsNonnegative y → IsNonnegative (times x y)
  pub sqrt-IsNonnegative : (x : Float) → IsNonnegative x → (q : Float) × (sqrt x ≡ some q)
