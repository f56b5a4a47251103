-- ===== src/Api/Detail/Search.antt =====
-- What a search of a list finds.
use revenueguard_ai.Common.{
  ℕ, ◌≤◌, ◌≡◌, ap, sym, ◌∙◌, inl, inr, Bool, true, false, Bool-cases, none, some, List, [], ◌∷◌,
  find, arith,
}
use mathlib.Core.List.{
  Pairwise, Mem, eq-or-mem_of_mem-cons, mem-cons_self, mem-cons_of_mem, not-mem-nil,
}
use mathlib.Core.Path.{subst}
use mathlib.Core.Bool.{Bool-set}
use mathlib.Core.Logic.Or
use native.Mathlib.Bridge.{le_prop}

-- The first that passes a test, in a list with the greatest first, is greatest of all that pass.
pub find-greatest :
    {A : Type 0} (key : A → ℕ) (p : A → Bool) (l : List A) (a : A)
    → Pairwise (λ x y. key y ≤ key x) l
    → find p l ≡ some a
    → (b : A) → Mem b l
    → p b ≡ true
    → key b ≤ key a
find-greatest key p [] a s h b m pb = cc
find-greatest key p (x ∷ l) a (Pairwise.cons below s) h b m pb = elim (Bool-cases (p x)) [
  | inl here ↦
      let first : x ≡ a = ground (arith, here, h) in
      Or.elim le_prop (eq-or-mem_of_mem-cons m) (λ e. omega (arith, ap key e, ap key first))
        (λ later. omega (arith, below b later, ap key first))
  | inr other ↦
      Or.elim le_prop (eq-or-mem_of_mem-cons m) (λ e. absurd (ground (arith, ap p e, pb, other)))
        (λ later. find-greatest key p l a s (ground (arith, other, h)) b later pb)
]

-- A row that a search finds passes its test.
pub find-passes : {A : Type 0} (p : A → Bool) (l : List A) (a : A) → find p l ≡ some a → p a ≡ true
find-passes p [] a h = cc
find-passes p (x ∷ l) a h = elim (Bool-cases (p x)) [
  | inl here ↦ let first : x ≡ a = ground (arith, here, h) in ap p (sym first) ∙ here
  | inr other ↦ find-passes p l a (ground (arith, other, h))
]

pub find-mem : {A : Type 0} (p : A → Bool) (l : List A) (a : A) → find p l ≡ some a → Mem a l
find-mem p [] a h = cc
find-mem p (x ∷ l) a h = elim (Bool-cases (p x)) [
  | inl here ↦
      let first : x ≡ a = ground (arith, here, h) in
      subst (λ y. Mem a (y ∷ l)) (sym first) mem-cons_self
  | inr other ↦ mem-cons_of_mem x (find-mem p l a (ground (arith, other, h)))
]

pub find-none :
    {A : Type 0} (p : A → Bool) (l : List A) → find p l ≡ none → (a : A) → Mem a l → p a ≡ false
find-none p [] h a m = absurd (not-mem-nil m)
find-none p (x ∷ l) h a m = elim (Bool-cases (p x)) [
  | inl here ↦ absurd (ground (arith, here, h))
  | inr other ↦
      Or.elim (Bool-set _ _) (eq-or-mem_of_mem-cons m) (λ e. ap p e ∙ other)
        (λ later. find-none p l (ground (arith, other, h)) a later)
]
