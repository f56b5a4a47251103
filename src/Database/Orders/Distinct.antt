-- ===== src/Database/Orders/Distinct.antt =====
-- Rows with distinct keys have one order.
use text.Mathlib.TextEquality.{eq_iff}
use mathlib.Core.HLevel.{hedberg}
use mathlib.Core.Path.{subst}
use mathlib.Core.Logic.Or
use mathlib.Core.List.{Perm, Pairwise, eq-or-mem_of_mem-cons, mem-cons_self}
use mathlib.Core.List.Perm
use revenueguard_ai.Common.{
  ℕ, ◌<◌, ◌≤◌, ◌≡◌, ◌≢◌, refl, sym, ap, ◌∙◌, List, [], ◌∷◌, length-perm, arith, String, str_eq,
  Bool-cases, inl, inr,
}
use revenueguard_ai.Database.{RecoveryCase}

module _ {A : Type 0} (key : A → ℕ) where
  abbrev pub IsBefore : A → A → Type 0
  IsBefore a b = key b < key a

  -- The greatest first, and no two alike.
  strictly :
      (l : List A)
      → Pairwise (λ a b. key b ≤ key a) l
      → Pairwise (λ a b. key a ≢ key b) l
      → Pairwise IsBefore l
  strictly [] s d = Pairwise.nil
  strictly (a ∷ l) (Pairwise.cons below s) (Pairwise.cons apart d) =
      Pairwise.cons (λ b m. omega (arith, below b m, apart b m)) (strictly l s d)

  module _ (set : IsSet A) where
    first_same :
        (a b : A) (l m : List A)
        → Pairwise IsBefore (a ∷ l)
        → Pairwise IsBefore (b ∷ m)
        → Perm (a ∷ l) (b ∷ m)
        → a ≡ b
    first_same a b l m (Pairwise.cons s _) (Pairwise.cons t _) p =
        Or.elim (set a b) (eq-or-mem_of_mem-cons ((Perm.mem_iff p).0 mem-cons_self)) (λ e. e)
          (λ here.
            Or.elim (set a b) (eq-or-mem_of_mem-cons ((Perm.mem_iff p).1 mem-cons_self))
              (λ e. sym e) (λ there. absurd (omega (arith, t a here, s b there))))

    strictly_unique : (l m : List A) → Pairwise IsBefore l → Pairwise IsBefore m → Perm l m → l ≡ m
    strictly_unique [] [] s t p = refl
    strictly_unique [] (b ∷ m) s t p = absurd (omega (arith, length-perm p))
    strictly_unique (a ∷ l) [] s t p = absurd (omega (arith, length-perm p))
    strictly_unique (a ∷ l) (b ∷ m) s t p =
        let same = first_same a b l m s t p in
        ap (λ c. c ∷ l) same
        ∙ ap (λ k. b ∷ k)
            (strictly_unique l m (later s) (later t)
              (Perm.cons_inv (subst (λ c. Perm (c ∷ l) (b ∷ m)) same p)))
      where
        later : {c : A} {k : List A} → Pairwise IsBefore (c ∷ k) → Pairwise IsBefore k
        later (Pairwise.cons _ s) = s

    -- Two descending orders of rows whose keys are distinct are one.
    pub descending_unique :
        (rows l m : List A)
        → Pairwise (λ a b. key a ≢ key b) rows
        → Pairwise (λ a b. key b ≤ key a) l
        → Pairwise (λ a b. key b ≤ key a) m
        → Perm l rows
        → Perm m rows
        → l ≡ m
    descending_unique rows l m d s t p q =
        strictly_unique l m (strictly l s (distinct l p)) (strictly m t (distinct m q))
          (Perm.trans p (Perm.symm q))
      where
        distinct : (k : List A) → Perm k rows → Pairwise (λ a b. key a ≢ key b) k
        distinct k r =
            Perm.pairwise {R = λ a b. key a ≢ key b} (λ a b. hlevel) (λ a b n e. n (sym e))
              (Perm.symm r) d

string_discrete : Discrete String
string_discrete s t = elim (Bool-cases (str_eq s t)) [
  | inl same ↦ yes ((eq_iff s t).0 same)
  | inr other ↦ no (λ e. absurd (cc (other, (eq_iff s t).1 e)))
]

pub recovery_case_set : IsSet RecoveryCase
recovery_case_set = hlevel (hedberg string_discrete)
