-- ===== src/Common/Sorting.antt =====
-- Python's `sorted`, which is stable, and its order on texts.
use Prim.Native.Char.{code}
use Prim.Native.String.{String}
use mathlib.Core.Path.{◌≡◌, refl, ap, sym, ◌∙◌}
use mathlib.Core.Logic.{inl, inr}
use mathlib.Core.Bool.{Bool, true, false}
use mathlib.Core.List.{List, [], ◌∷◌, Perm}
use mathlib.Core.List.Perm
use native.Mathlib.Omega.{arith}
use text.Mathlib.Text.{◌==◌ as str_eq}
use text.Mathlib.TextEquality.{eq_iff}
use revenueguard_ai.Common.Tests.{if◌then◌else◌, ltb, ◌==◌, Bool-cases}
use revenueguard_ai.Common.Lists.{All}
use revenueguard_ai.Common.Sequences.{filter}

-- `s <= t`, by code points.
unfoldable pub text_le : String → String → Bool
text_le String.[] t = true
text_le (String.◌∷◌ c s) String.[] = false
text_le (String.◌∷◌ c s) (String.◌∷◌ d t) =
    if code c == code d then text_le s t else ltb (code c) (code d)

pub text_le_total : (s t : String) → text_le s t ≡ false → text_le t s ≡ true
unfolding text_le
text_le_total String.[] t h = cc
text_le_total (String.◌∷◌ c s) String.[] h = refl
text_le_total (String.◌∷◌ c s) (String.◌∷◌ d t) h = ground (arith, text_le_total s t)

pub text_le_trans : (s t u : String) → text_le s t ≡ true → text_le t u ≡ true → text_le s u ≡ true
unfolding text_le
text_le_trans String.[] t u p q = refl
text_le_trans (String.◌∷◌ c s) String.[] u p q = cc
text_le_trans (String.◌∷◌ c s) (String.◌∷◌ d t) String.[] p q = cc
text_le_trans (String.◌∷◌ c s) (String.◌∷◌ d t) (String.◌∷◌ e u) p q =
    ground (arith, text_le_trans s t u)

module _ {A : Type 0} (key : A → String) where
  -- Before the first element that it does not exceed.
  unfoldable pub insert_sorted : A → List A → List A
  insert_sorted a [] = a ∷ []
  insert_sorted a (b ∷ l) =
      let rest = insert_sorted a l in if text_le (key a) (key b) then a ∷ b ∷ l else b ∷ rest

  unfoldable pub sorted : List A → List A
  sorted [] = []
  sorted (a ∷ l) = insert_sorted a (sorted l)

  abbrev pub IsSorted : List A → Type 0
  IsSorted [] = Unit
  IsSorted (a ∷ l) = All (λ b. text_le (key a) (key b) ≡ true) l × IsSorted l

  insert_sorted-perm : (a : A) (l : List A) → Perm (insert_sorted a l) (a ∷ l)
  unfolding insert_sorted
  insert_sorted-perm a [] = Perm.rfl
  insert_sorted-perm a (b ∷ l) =
      go (Perm.trans (Perm.cons b (insert_sorted-perm a l)) (Perm.swap a b l))
        (text_le (key a) (key b))
    where
      go :
          Perm (b ∷ insert_sorted a l) (a ∷ b ∷ l)
          → (t : Bool) → Perm (if t then a ∷ b ∷ l else b ∷ insert_sorted a l) (a ∷ b ∷ l)
      go moved true = Perm.rfl
      go moved false = moved

  pub sorted-perm : (l : List A) → Perm (sorted l) l
  unfolding sorted
  sorted-perm [] = Perm.rfl
  sorted-perm (a ∷ l) = Perm.trans (insert_sorted-perm a (sorted l)) (Perm.cons a (sorted-perm l))

  below :
      (a b : A) (l : List A)
      → text_le (key a) (key b) ≡ true
      → All (λ c. text_le (key b) (key c) ≡ true) l
      → All (λ c. text_le (key a) (key c) ≡ true) l
  below a b [] p h = tt
  below a b (c ∷ l) p h = (text_le_trans (key a) (key b) (key c) p h.0, below a b l p h.1)

  below_inserted :
      (b a : A) (l : List A)
      → text_le (key b) (key a) ≡ true
      → All (λ c. text_le (key b) (key c) ≡ true) l
      → All (λ c. text_le (key b) (key c) ≡ true) (insert_sorted a l)
  unfolding insert_sorted
  below_inserted b a [] p h = (p, tt)
  below_inserted b a (c ∷ l) p h = go (below_inserted b a l p h.1) (text_le (key a) (key c))
    where
      go :
          All (λ c. text_le (key b) (key c) ≡ true) (insert_sorted a l)
          → (t : Bool)
          → All
              (λ c. text_le (key b) (key c) ≡ true)
              (if t then a ∷ c ∷ l else c ∷ insert_sorted a l)
      go rest true = (p, h)
      go rest false = (h.0, rest)

  insert_sorted-IsSorted : (a : A) (l : List A) → IsSorted l → IsSorted (insert_sorted a l)
  unfolding insert_sorted
  insert_sorted-IsSorted a [] h = (tt, tt)
  insert_sorted-IsSorted a (b ∷ l) h =
      go (insert_sorted-IsSorted a l h.1) (text_le (key a) (key b)) refl
    where
      go :
          IsSorted (insert_sorted a l)
          → (t : Bool) → text_le (key a) (key b) ≡ t
          → IsSorted (if t then a ∷ b ∷ l else b ∷ insert_sorted a l)
      go rest true p = ((p, below a b l p h.0), h)
      go rest false p = (below_inserted b a l (text_le_total (key a) (key b) p) h.0, rest)

  pub sorted-IsSorted : (l : List A) → IsSorted (sorted l)
  unfolding sorted
  sorted-IsSorted [] = tt
  sorted-IsSorted (a ∷ l) = insert_sorted-IsSorted a (sorted l) (sorted-IsSorted l)

  text_le_refl : (s : String) → text_le s s ≡ true
  unfolding text_le
  text_le_refl String.[] = refl
  text_le_refl (String.◌∷◌ c s) = ground (arith, text_le_refl s)

  filter_eq :
      (k : String) (a : A) (l m : List A)
      → filter (λ c. str_eq (key c) k) l ≡ filter (λ c. str_eq (key c) k) m
      → filter (λ c. str_eq (key c) k) (a ∷ l) ≡ filter (λ c. str_eq (key c) k) (a ∷ m)
  unfolding filter
  filter_eq k a l m e = ap (λ rest. if str_eq (key a) k then a ∷ rest else rest) e

  swapped :
      (k : String) (a b : A) (l : List A)
      → text_le (key a) (key b) ≡ false
      → filter (λ c. str_eq (key c) k) (b ∷ a ∷ l) ≡ filter (λ c. str_eq (key c) k) (a ∷ b ∷ l)
  unfolding filter
  swapped k a b l apart = elim (Bool-cases (str_eq (key a) k)) [
    | inl here ↦ elim (Bool-cases (str_eq (key b) k)) [
      | inl both ↦
          let same = (eq_iff (key a) k).0 here ∙ sym ((eq_iff (key b) k).0 both) in
          let le : text_le (key a) (key b) ≡ true =
            ap (λ s. text_le (key a) s) (sym same) ∙ text_le_refl (key a) in
          absurd (ground arith)
      | inr only ↦ ground arith
    ]
    | inr other ↦ ground arith
  ]

  insert_sorted-stable :
      (k : String) (a : A) (l : List A)
      → filter (λ c. str_eq (key c) k) (insert_sorted a l) ≡ filter (λ c. str_eq (key c) k) (a ∷ l)
  unfolding insert_sorted
  insert_sorted-stable k a [] = refl
  insert_sorted-stable k a (b ∷ l) =
      go (filter_eq k b (insert_sorted a l) (a ∷ l) (insert_sorted-stable k a l))
        (text_le (key a) (key b)) refl
    where
      go :
          filter (λ c. str_eq (key c) k) (b ∷ insert_sorted a l)
            ≡ filter (λ c. str_eq (key c) k) (b ∷ a ∷ l)
          → (t : Bool) → text_le (key a) (key b) ≡ t
          → filter (λ c. str_eq (key c) k) (if t then a ∷ b ∷ l else b ∷ insert_sorted a l)
            ≡ filter (λ c. str_eq (key c) k) (a ∷ b ∷ l)
      go rest true p = refl
      go rest false p = rest ∙ swapped k a b l p

  -- What has one key stays in its order.
  pub sorted-stable :
      (k : String) (l : List A)
      → filter (λ c. str_eq (key c) k) (sorted l) ≡ filter (λ c. str_eq (key c) k) l
  unfolding sorted
  sorted-stable k [] = refl
  sorted-stable k (a ∷ l) =
      insert_sorted-stable k a (sorted l) ∙ filter_eq k a (sorted l) l (sorted-stable k l)
