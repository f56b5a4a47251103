-- ===== src/Examples/Orders.antt =====
-- Rows put in order by insertion.
use revenueguard_ai.Common.{
  ℕ, ◌≤◌, ◌≡◌, Bool, true, false, List, [], ◌∷◌, if◌then◌else◌, leb, arith, refl,
}
use mathlib.Core.List.{Perm, Pairwise, eq-or-mem_of_mem-cons, not-mem-nil}
use mathlib.Core.List.Perm
use mathlib.Core.Logic.Or
use native.Mathlib.Bridge.{le_prop}
use mathlib.Core.Path.{subst, sym}
use revenueguard_ai.Database.Orders.{OrderBy}

-- The keys of two rows, compared upwards or downwards.
abbrev pub Le : Bool → ℕ → ℕ → Type 0
Le true a b = a ≤ b
Le false a b = b ≤ a

abbrev pub le : Bool → ℕ → ℕ → Bool
le true a b = leb a b
le false a b = leb b a

module _ {A : Type 0} (up : Bool) (key : A → ℕ) where
  unfoldable pub insert : A → List A → List A
  insert a [] = a ∷ []
  insert a (b ∷ l) = let rest = insert a l in if le up (key a) (key b) then a ∷ b ∷ l else b ∷ rest

  unfoldable pub arrange : List A → List A
  arrange [] = []
  arrange (a ∷ l) = insert a (arrange l)

  insert-perm : (a : A) (l : List A) → Perm (insert a l) (a ∷ l)
  unfolding insert
  insert-perm a [] = Perm.rfl
  insert-perm a (b ∷ l) =
      go (Perm.trans (Perm.cons b (insert-perm a l)) (Perm.swap a b l)) (le up (key a) (key b))
    where
      go :
          Perm (b ∷ insert a l) (a ∷ b ∷ l)
          → (t : Bool) → Perm (if t then a ∷ b ∷ l else b ∷ insert a l) (a ∷ b ∷ l)
      go moved true = Perm.rfl
      go moved false = moved

  pub arrange-perm : (l : List A) → Perm (arrange l) l
  unfolding arrange
  arrange-perm [] = Perm.rfl
  arrange-perm (a ∷ l) = Perm.trans (insert-perm a (arrange l)) (Perm.cons a (arrange-perm l))

Le-prop : (up : Bool) (a b : ℕ) → IsProp (Le up a b)
Le-prop true a b = le_prop
Le-prop false a b = le_prop

Le-of_le : (up : Bool) (a b : ℕ) → le up a b ≡ true → Le up a b
Le-of_le true a b h = ground arith
Le-of_le false a b h = ground arith

Le-of_not : (up : Bool) (a b : ℕ) → le up a b ≡ false → Le up b a
Le-of_not true a b h = ground arith
Le-of_not false a b h = ground arith

Le_trans : (up : Bool) (a b c : ℕ) → Le up a b → Le up b c → Le up a c
Le_trans true a b c p q = omega arith
Le_trans false a b c p q = omega arith

module _ {A : Type 0} (up : Bool) (key : A → ℕ) where
  abbrev pub IsOrdered : List A → Type 0
  IsOrdered = Pairwise (λ a b. Le up (key a) (key b))

  insert-IsOrdered : (a : A) (l : List A) → IsOrdered l → IsOrdered (insert up key a l)
  unfolding insert
  insert-IsOrdered a [] h = Pairwise.cons (λ x m. absurd (not-mem-nil m)) Pairwise.nil
  insert-IsOrdered a (b ∷ l) (Pairwise.cons below s) =
      go (insert-IsOrdered a l s) (le up (key a) (key b)) refl
    where
      go :
          IsOrdered (insert up key a l)
          → (t : Bool) → le up (key a) (key b) ≡ t
          → IsOrdered (if t then a ∷ b ∷ l else b ∷ insert up key a l)
      go rest true p =
          Pairwise.cons
            (λ x m.
              Or.elim (Le-prop up _ _) (eq-or-mem_of_mem-cons m)
                (λ e. subst (λ y. Le up (key a) (key y)) (sym e) (Le-of_le up (key a) (key b) p))
                (λ later. Le_trans up _ _ _ (Le-of_le up (key a) (key b) p) (below x later)))
            (Pairwise.cons below s)
      go rest false p =
          Pairwise.cons
            (λ x m.
              Or.elim (Le-prop up _ _)
                (eq-or-mem_of_mem-cons ((Perm.mem_iff (insert-perm up key a l)).0 m))
                (λ e. subst (λ y. Le up (key b) (key y)) (sym e) (Le-of_not up (key a) (key b) p))
                (λ later. below x later))
            rest

  pub arrange-IsOrdered : (l : List A) → IsOrdered (arrange up key l)
  unfolding arrange
  arrange-IsOrdered [] = Pairwise.nil
  arrange-IsOrdered (a ∷ l) = insert-IsOrdered a (arrange up key l) (arrange-IsOrdered l)

abbrev pub by_insertion : OrderBy
by_insertion = record {
  ascending = λ key. arrange true key;
  descending = λ key. arrange false key;
  ascending-perm = λ key rows. arrange-perm true key rows;
  descending-perm = λ key rows. arrange-perm false key rows;
  ascending-pairwise = λ key rows. arrange-IsOrdered true key rows;
  descending-pairwise = λ key rows. arrange-IsOrdered false key rows;
}
