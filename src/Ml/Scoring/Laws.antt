-- ===== src/Ml/Scoring/Laws.antt =====
-- The priorities, and the reason codes of the features that the explainer ranks.
use text.Mathlib.TextEquality.{eq_iff}
use revenueguard_ai.Common.{
  ℕ, suc, ◌≤◌, ◌<◌, ◌≡◌, refl, ap, sym, ◌∙◌, inl, inr, ◌↔◌, String, Bool, true, false, ◌&&◌, ◌||◌,
  Bool-cases, Option, none, some, List, [], ◌∷◌, if◌then◌else◌, str_eq, length, arith, All,
}
use revenueguard_ai.Models.{Priority, critical, high, medium, low}
use revenueguard_ai.Ingestion.Json.{◌>>=◌}
use revenueguard_ai.Ml.Scoring.{
  priority, feature_names, reason_codes, entry_of, has, distinct_from, codes_of,
  ranked_reason_codes,
}

abbrev pub rank : Priority → ℕ
rank critical = 3
rank high = 2
rank medium = 1
rank low = 0

-- A higher probability and a higher amount never lower the priority. The highest one is given above
-- 0.7 and 10,000 rupees only, and the lowest one up to 0.3 only.
pub priority_mono :
    (p q a b : ℕ)
    → p ≤ q
    → a ≤ b
    → (rank (priority p a) ≤ rank (priority q b))
      × ((priority p a ≡ critical) ↔ ((700_000 < p) × (1_000_000 < a)))
      × ((priority p a ≡ low) ↔ (p ≤ 300_000))
unfolding priority
priority_mono p q a b hp ha = (
  ground arith,
  (λ e. (ground arith, ground arith), λ h. ground (arith, h.0, h.1)),
  (λ e. ground arith, λ h. ground arith),
)

abbrev every : (String → Bool) → List String → Bool
every p [] = true
every p (s ∷ ss) = p s && every p ss

-- What holds of every text of a list holds of one that is in it.
every-has :
    (p : String → Bool) (l : List String) (s : String)
    → every p l ≡ true
    → has s l ≡ true
    → p s ≡ true
every-has p [] s h there = cc
every-has p (t ∷ l) s h there = elim (Bool-cases (str_eq t s)) [
  | inl same ↦ ap p (sym ((eq_iff t s).0 same)) ∙ ground arith
  | inr other ↦ every-has p l s (ground arith) (ground arith)
]

abbrev is_some : Option String → Bool
is_some none = false
is_some (some s) = true

is_some-exists : (o : Option String) → is_some o ≡ true → (s : String) × (o ≡ some s)
is_some-exists none h = cc
is_some-exists (some s) h = (s, refl)

-- Every feature has a reason code.
feature-code :
    (f : String) → has f feature_names ≡ true → (c : String) × (entry_of reason_codes f ≡ some c)
feature-code f there =
    is_some-exists (entry_of reason_codes f)
      (every-has (λ f. is_some (entry_of reason_codes f)) feature_names f refl there)

-- No text of a list stands in it before, or among those seen already.
abbrev pub IsDistinct : List String → List String → Type 0
IsDistinct seen [] = Unit
IsDistinct seen (s ∷ ss) = (has s seen ≡ false) × IsDistinct (s ∷ seen) ss

distinct_from-IsDistinct : (seen l : List String) → IsDistinct seen (distinct_from seen l)
unfolding distinct_from
distinct_from-IsDistinct seen [] = tt
distinct_from-IsDistinct seen (s ∷ ss) =
    go (distinct_from-IsDistinct seen ss) (distinct_from-IsDistinct (s ∷ seen) ss) (has s seen) refl
  where
    go :
        IsDistinct seen (distinct_from seen ss)
        → IsDistinct (s ∷ seen) (distinct_from (s ∷ seen) ss)
        → (b : Bool) → has s seen ≡ b
        → IsDistinct seen (if b then distinct_from seen ss else s ∷ distinct_from (s ∷ seen) ss)
    go skipped kept true h = skipped
    go skipped kept false h = (h, kept)

distinct_from-has :
    (seen l : List String) (x : String)
    → (has x (distinct_from seen l) || has x seen) ≡ (has x l || has x seen)
unfolding distinct_from
distinct_from-has seen [] x = refl
distinct_from-has seen (s ∷ ss) x =
    let skipped = distinct_from-has seen ss x in
    let kept = distinct_from-has (s ∷ seen) ss x in
    elim (Bool-cases (has s seen)) [
      | inl again ↦
          ap
            (λ b.
              has x (if b then distinct_from seen ss else s ∷ distinct_from (s ∷ seen) ss)
              || has x seen)
            again
          ∙ skipped
          ∙ elim (Bool-cases (str_eq s x)) [
            | inl same ↦
                let seen_too : has x seen ≡ true =
                  ap (λ t. has t seen) (sym ((eq_iff s x).0 same)) ∙ again in
                ground arith
            | inr other ↦ ground arith
          ]
      | inr new ↦
          ap
            (λ b.
              has x (if b then distinct_from seen ss else s ∷ distinct_from (s ∷ seen) ss)
              || has x seen)
            new
          ∙ ground (arith, kept)
    ]

length-distinct_from : (seen l : List String) → length (distinct_from seen l) ≤ length l
unfolding distinct_from
length-distinct_from seen [] = omega arith
length-distinct_from seen (s ∷ ss) =
    ground (arith, length-distinct_from seen ss, length-distinct_from (s ∷ seen) ss)

length-codes_of :
    (features : List String)
    → All (λ f. has f feature_names ≡ true) features
    → (codes : List String) × (codes_of features ≡ some codes) × (length codes ≡ length features)
length-codes_of [] h = ([], refl, refl)
length-codes_of (f ∷ fs) h =
    let (c, ec) = feature-code f h.0 in
    let (codes, e, n) = length-codes_of fs h.1 in
    (
      c ∷ codes,
      ap (λ o. o >>= λ code. codes_of fs >>= λ rest. some (code ∷ rest)) ec
          ∙ ap (λ o. o >>= λ rest. some (c ∷ rest)) e,
      ap suc n,
    )

-- Of features by their names, the reason codes are always found: the scorer's table has every feature.
-- They are the codes of these features, each once, so at most as many as the features.
pub ranked_reason_codes-IsDistinct :
    (features : List String)
    → All (λ f. has f feature_names ≡ true) features
    → (ranked codes : List String) × (ranked_reason_codes features ≡ some ranked)
      × (codes_of features ≡ some codes)
      × IsDistinct [] ranked
      × ((c : String) → has c ranked ≡ has c codes)
      × (length ranked ≤ length features)
unfolding ranked_reason_codes
ranked_reason_codes-IsDistinct features known =
    let (codes, e, n) = length-codes_of features known in
    (
      distinct_from [] codes,
      codes,
      ap (λ o. o >>= λ l. some (distinct_from [] l)) e,
      e,
      distinct_from-IsDistinct [] codes,
      λ c. ground (arith, distinct_from-has [] codes c),
      omega (arith, n, length-distinct_from [] codes),
    )
