-- ===== src/Database/Tables.antt =====
-- Tables with a unique column: queries by it, insertion of what is not there, and updates.
use mathlib.Core.Path.{subst}
use text.Mathlib.TextEquality.{eq_iff}
use text.Mathlib.TextPositions.{eq_refl}
use revenueguard_ai.Common.{
  String, ◌≡◌, refl, ◌≢◌, inl, inr, Bool, true, false, Bool-cases, Option, none, some, List, [],
  ◌∷◌, ◌++◌, str_eq, if◌then◌else◌, find, All, arith, ap, ◌∙◌, sym,
}

module _ {A : Type 0} (column : A → String) where
  -- `db.scalar(select(A).where(column == k))`
  abbrev pub by : String → List A → Option A
  by k rows = find (λ a. str_eq (column a) k) rows

  -- Insertion unless a row with the same key is there.
  unfoldable pub add_missing : A → List A → List A
  add_missing a rows = elim (by (column a) rows) [ none ↦ rows ++ a ∷ [] | some b ↦ rows ]

  -- A change of the row with a key.
  unfoldable pub change : String → (A → A) → List A → List A
  change k f [] = []
  change k f (a ∷ rows) = (if str_eq (column a) k then f a else a) ∷ change k f rows

  -- No two rows have one key.
  abbrev pub IsUnique : List A → Type 0
  IsUnique [] = Unit
  IsUnique (a ∷ rows) = All (λ b. column b ≢ column a) rows × IsUnique rows

  by-none : (k : String) (rows : List A) → by k rows ≡ none → All (λ b. column b ≢ k) rows
  by-none k [] h = tt
  by-none k (a ∷ rows) h = elim (Bool-cases (str_eq (column a) k)) [
    | inl same ↦ absurd (ground arith)
    | inr other ↦ ((λ e. cc ((eq_iff (column a) k).1 e)), by-none k rows (ground arith))
  ]

  IsUnique-snoc :
      (rows : List A) (a : A)
      → IsUnique rows
      → All (λ b. column b ≢ column a) rows
      → IsUnique (rows ++ a ∷ [])
  IsUnique-snoc [] a u fresh = (tt, tt)
  IsUnique-snoc (b ∷ rows) a u fresh =
      (All-snoc rows u.0 (λ e. fresh.0 (sym e)), IsUnique-snoc rows a u.1 fresh.1)
    where
      All-snoc :
          (l : List A)
          → All (λ c. column c ≢ column b) l
          → column a ≢ column b
          → All (λ c. column c ≢ column b) (l ++ a ∷ [])
      All-snoc [] h p = (p, tt)
      All-snoc (x ∷ l) h p = (h.0, All-snoc l h.1 p)

  pub add_missing-IsUnique : (a : A) (rows : List A) → IsUnique rows → IsUnique (add_missing a rows)
  unfolding add_missing
  add_missing-IsUnique a rows u = go (by (column a) rows) refl
    where
      go :
          (o : Option A)
          → by (column a) rows ≡ o
          → IsUnique (elim o [ none ↦ rows ++ a ∷ [] | some b ↦ rows ])
      go none e = IsUnique-snoc rows a u (by-none (column a) rows e)
      go (some b) e = u

  -- A change that keeps the key changes exactly the row that the query finds.
  pub by-change_self :
      (k : String) (f : A → A) (rows : List A) (a : A)
      → ((b : A) → column (f b) ≡ column b)
      → by k rows ≡ some a
      → by k (change k f rows) ≡ some (f a)
  unfolding change
  by-change_self k f [] a keeps h = cc
  by-change_self k f (b ∷ rows) a keeps h = elim (Bool-cases (str_eq (column b) k)) [
    | inl same ↦ ground (arith, keeps b)
    | inr other ↦ ground (arith, by-change_self k f rows a keeps)
  ]

  All-change :
      (k : String) (f : A → A) (v : String) (rows : List A)
      → ((b : A) → column (f b) ≡ column b)
      → All (λ b. column b ≢ v) rows
      → All (λ b. column b ≢ v) (change k f rows)
  unfolding change
  All-change k f v [] keeps h = tt
  All-change k f v (a ∷ rows) keeps h =
      (kept (str_eq (column a) k), All-change k f v rows keeps h.1)
    where
      kept : (b : Bool) → column (if b then f a else a) ≢ v
      kept true = λ e. h.0 (sym (keeps a) ∙ e)
      kept false = h.0

  pub change-IsUnique :
      (k : String) (f : A → A) (rows : List A)
      → ((b : A) → column (f b) ≡ column b)
      → IsUnique rows
      → IsUnique (change k f rows)
  unfolding change
  change-IsUnique k f [] keeps u = tt
  change-IsUnique k f (a ∷ rows) keeps u = (
    All-change k f _ rows keeps
        (subst (λ v. All (λ b. column b ≢ v) rows) (kept (str_eq (column a) k)) u.0),
    change-IsUnique k f rows keeps u.1,
  )
    where
      kept : (b : Bool) → column a ≡ column (if b then f a else a)
      kept true = sym (keeps a)
      kept false = refl

  -- The row that a query finds has the key.
  pub by-key : (k : String) (rows : List A) (a : A) → by k rows ≡ some a → column a ≡ k
  by-key k [] a h = cc
  by-key k (b ∷ rows) a h = elim (Bool-cases (str_eq (column b) k)) [
    | inl same ↦ ground (arith, eq_iff (column b) k)
    | inr other ↦ by-key k rows a (ground arith)
  ]

  -- A change of a row that is not there.
  pub change-absent :
      (k : String) (f : A → A) (rows : List A)
      → All (λ b. column b ≢ k) rows
      → change k f rows ≡ rows
  unfolding change
  change-absent k f [] fresh = refl
  change-absent k f (a ∷ rows) fresh = elim (Bool-cases (str_eq (column a) k)) [
    | inl same ↦ absurd (fresh.0 ((eq_iff (column a) k).0 same))
    | inr other ↦ ground (arith, change-absent k f rows fresh.1)
  ]

  -- It leaves what other keys find.
  pub by-change_other :
      (k v : String) (f : A → A) (rows : List A)
      → ((b : A) → column (f b) ≡ column b)
      → v ≢ k
      → by v (change k f rows) ≡ by v rows
  unfolding change
  by-change_other k v f [] keeps other = refl
  by-change_other k v f (a ∷ rows) keeps other = elim (Bool-cases (str_eq (column a) k)) [
    | inl same ↦ elim (Bool-cases (str_eq (column a) v)) [
      | inl hit ↦ absurd (other (sym ((eq_iff (column a) v).0 hit) ∙ (eq_iff (column a) k).0 same))
      | inr miss ↦ ground (arith, keeps a, by-change_other k v f rows keeps other)
    ]
    | inr apart ↦ ground (arith, by-change_other k v f rows keeps other)
  ]

  -- A row with a new key at the end.
  pub IsUnique-add :
      (a : A) (rows : List A)
      → IsUnique rows
      → by (column a) rows ≡ none
      → IsUnique (rows ++ a ∷ [])
  IsUnique-add a rows u h = IsUnique-snoc rows a u (by-none (column a) rows h)

  pub by-added :
      (a : A) (rows : List A) → by (column a) rows ≡ none → by (column a) (rows ++ a ∷ []) ≡ some a
  by-added a [] h = ap (λ t. if t then some a else none) (eq_refl (column a))
  by-added a (b ∷ rows) h = elim (Bool-cases (str_eq (column b) (column a))) [
    | inl same ↦ absurd (ground arith)
    | inr other ↦ ground (arith, by-added a rows)
  ]
