-- ===== src/Api/Listing/Pages.antt =====
-- The pages of list_cases together.
use revenueguard_ai.Common.{
  ℕ, zero, suc, ◌+◌, ◌-◌, ◌*◌, ◌≤◌, ◌≡◌, ◌≢◌, sym, ap, ◌∙◌, String, Option, List, [], ◌∷◌, ◌++◌,
  map, arith, length, take, drop, append-take, take_all, length-take, length-perm, ap,
}
use mathlib.Core.Path.{subst}
use mathlib.Core.Logic.Or
use mathlib.Core.List.{
  Perm, Pairwise, map-append, Mem, Mem-prop, eq-or-mem_of_mem-cons, mem-cons_self, mem-cons_of_mem,
  not-mem-nil,
}
use mathlib.Core.List.Perm
use revenueguard_ai.Common.Int.{pos}
use revenueguard_ai.Models.Time.{Iso}
use revenueguard_ai.Database.{RecoveryCase, Database}
use revenueguard_ai.Database.Orders.{OrderBy}
use revenueguard_ai.Database.Orders.Distinct.{descending_unique, recovery_case_set}
use revenueguard_ai.Api.Views.{CaseSummary, case_summary}
use revenueguard_ai.Api.Listing.{
  Listing, listing, refused, matching, newest_first, page_of, list_cases,
}

abbrev pub items_of : Listing → List CaseSummary
items_of (listing items page page_size total) = items
items_of refused = []

mem-take : {A : Type 0} (n : ℕ) (l : List A) (a : A) → Mem a (take n l) → Mem a l
mem-take zero l a m = absurd (not-mem-nil m)
mem-take (suc n) [] a m = m
mem-take (suc n) (x ∷ l) a m =
    Or.elim Mem-prop (eq-or-mem_of_mem-cons m) (λ e. subst (λ y. Mem a (y ∷ l)) e mem-cons_self)
      (λ later. mem-cons_of_mem x (mem-take n l a later))

mem-drop : {A : Type 0} (n : ℕ) (l : List A) (a : A) → Mem a (drop n l) → Mem a l
mem-drop zero l a m = m
mem-drop (suc n) [] a m = m
mem-drop (suc n) (x ∷ l) a m = mem-cons_of_mem x (mem-drop n l a m)

-- Every page is the answer of a query of its own, which has its own order of the rows that are equal.
module _ (orders : ℕ → OrderBy) (iso : Iso) (status experiment_arm : Option String) (db : Database)
    (size : ℕ) where
  -- The page with a number, and the first n pages.
  abbrev pub page_at : ℕ → Listing
  page_at page = list_cases (orders page) iso status (pos page) (pos size) experiment_arm db

  unfoldable pub pages_upto : ℕ → List CaseSummary
  pages_upto zero = []
  pages_upto (suc n) = pages_upto n ++ items_of (page_at (suc n))

  abbrev newest : ℕ → List RecoveryCase
  newest page = newest_first (orders page) status experiment_arm db

  page_at_lem :
      (page : ℕ)
      → 1 ≤ page
      → 1 ≤ size
      → size ≤ 100
      → page_at page
        ≡ listing
            (map (case_summary iso) (page_of page size (newest page)))
            page
            size
            (length (matching status experiment_arm db))
  unfolding list_cases
  page_at_lem page h1 h2 h3 = ground arith

  -- Without two cases of one moment, all queries have the order of the first.
  abbrev pub HasDistinctMoments : Type 0
  HasDistinctMoments =
      Pairwise (λ a b. a.created_at ≢ b.created_at) (matching status experiment_arm db)

  newest_unique : HasDistinctMoments → (page : ℕ) → newest page ≡ newest 1
  newest_unique distinct page =
      descending_unique (λ c. c.created_at) recovery_case_set (matching status experiment_arm db)
        (newest page) (newest 1) distinct ((orders page).descending-pairwise _ _)
        ((orders 1).descending-pairwise _ _) ((orders page).descending-perm _ _)
        ((orders 1).descending-perm _ _)

  shown : ℕ → List CaseSummary
  shown k = map (case_summary iso) (take k (newest 1))

  none_yet : 0 ≡ 0 * size
  none_yet = omega arith

  pages_upto_lem :
      HasDistinctMoments → (n : ℕ) → 1 ≤ size → size ≤ 100 → pages_upto n ≡ shown (n * size)
  unfolding pages_upto shown
  pages_upto_lem distinct zero low high = ap shown none_yet
  pages_upto_lem distinct (suc n) low high =
      ap (λ l. l ++ items_of (page_at (suc n))) (pages_upto_lem distinct n low high)
      ∙ ap (λ p. shown (n * size) ++ items_of p) (page_at_lem (suc n) (omega arith) low high)
      ∙ ap (λ l. shown (n * size) ++ map (case_summary iso) (page_of (suc n) size l))
          (newest_unique distinct (suc n))
      ∙ sym (
          map-append (case_summary iso) (take (n * size) (newest 1))
            (page_of (suc n) size (newest 1)))
      ∙ ap
          (λ k.
            map (case_summary iso) (take (n * size) (newest 1) ++ take size (drop k (newest 1))))
          (first n)
      ∙ ap (λ l. map (case_summary iso) l) (append-take (n * size) size (newest 1))
      ∙ ap shown (next n)
    where
      first : (n : ℕ) → (suc n - 1) * size ≡ n * size
      first n = ap (λ k. k * size) (omega arith)

      next : (n : ℕ) → n * size + size ≡ suc n * size
      next n = omega arith

-- With a page size that is allowed: each page has at most the page size of the cases that pass the
-- filters, and gives their number as the total, whatever order the database gives to cases of one moment.
-- If no two of them were created at one moment, and the pages are enough for the total, the pages one
-- after another are these cases, each once, the newest first, although each page is a query of its own.
pub list_cases-pages_upto :
    (orders : ℕ → OrderBy) (iso : Iso) (status experiment_arm : Option String) (db : Database)
    (size n : ℕ)
    → 1 ≤ size
    → size ≤ 100
    → length (matching status experiment_arm db) ≤ n * size
    → ((page : ℕ)
        → 1 ≤ page
        → (l : List RecoveryCase) × (list_cases
              (orders page)
              iso
              status
              (pos page)
              (pos size)
              experiment_arm
              db
            ≡ listing
                (map (case_summary iso) l)
                page
                size
                (length (matching status experiment_arm db)))
          × (length l ≤ size)
          × ((c : RecoveryCase) → Mem c l → Mem c (matching status experiment_arm db)))
      × (HasDistinctMoments orders iso status experiment_arm db size
          → (all : List RecoveryCase) × (pages_upto orders iso status experiment_arm db size n
              ≡ map (case_summary iso) all)
            × Perm all (matching status experiment_arm db)
            × Pairwise (λ a b. b.created_at ≤ a.created_at) all)
unfolding shown
list_cases-pages_upto orders iso status experiment_arm db size n low high enough = (
  λ page h. (
    page_of page size (newest orders iso status experiment_arm db size page),
    page_at_lem orders iso status experiment_arm db size page h low high,
    length-take size _,
    λ c m.
        (Perm.mem_iff ((orders page).descending-perm _ _)).0 (mem-drop _ _ c (mem-take size _ c m)),
  ),
  λ distinct. (
    newest orders iso status experiment_arm db size 1,
    pages_upto_lem orders iso status experiment_arm db size distinct n low high
        ∙ ap (λ l. map (case_summary iso) l)
            (take_all (n * size) (newest orders iso status experiment_arm db size 1) (
              omega (
                arith,
                enough,
                length-perm (
                    (orders 1).descending-perm (λ c. c.created_at)
                      (matching status experiment_arm db)),
              ))),
    (orders 1).descending-perm _ _,
    (orders 1).descending-pairwise _ _,
  ),
)
