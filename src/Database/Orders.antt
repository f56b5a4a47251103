-- ===== src/Database/Orders.antt =====
-- `ORDER BY` of the database, as the program relies on it: the same rows, in the order of a column.
-- What it does with rows that are equal there is open.
pub mod Distinct
use revenueguard_ai.Common.{ℕ, ◌≤◌, List}
use mathlib.Core.List.{Perm, Pairwise}

pub record OrderBy : Type 1 where
  pub ascending : {A : Type 0} → (A → ℕ) → List A → List A
  pub descending : {A : Type 0} → (A → ℕ) → List A → List A
  pub ascending-perm : {A : Type 0} (key : A → ℕ) (rows : List A) → Perm (ascending key rows) rows
  pub descending-perm : {A : Type 0} (key : A → ℕ) (rows : List A) → Perm (descending key rows) rows
  pub ascending-pairwise :
      {A : Type 0} (key : A → ℕ) (rows : List A)
      → Pairwise (λ a b. key a ≤ key b) (ascending key rows)
  pub descending-pairwise :
      {A : Type 0} (key : A → ℕ) (rows : List A)
      → Pairwise (λ a b. key b ≤ key a) (descending key rows)
