-- ===== src/Ml/Bandit/Laws.antt =====
-- Each segment learns for itself.
use text.Mathlib.TextPositions.{eq_refl}
use text.Mathlib.TextEquality.{eq_iff}
use revenueguard_ai.Common.{
  ◌≡◌, ◌≢◌, refl, ap, sym, ◌∙◌, inl, inr, Bool-cases, String, str_eq, Bool, true, false, Option,
  none, some, List, [], ◌∷◌, if◌then◌else◌, arith,
}
use revenueguard_ai.Ml.Bandit.{
  Mab, arms, holds, neutral, bandit_of, created, get_or_create_bandit, put, update,
}

names_apart :
    (s segment other : String) → str_eq s segment ≡ true → other ≢ segment → str_eq s other ≡ false
names_apart s segment other here h = elim (Bool-cases (str_eq s other)) [
  | inl same ↦ absurd (h (sym ((eq_iff s other).0 same) ∙ (eq_iff s segment).0 here))
  | inr different ↦ different
]

module _ (mab : Mab) where
  open mab use {Bandit, fit, partial_fit}

  -- The bandit that a segment has, or gets when it is first asked for.
  abbrev pub bandit_or_new : Option Bandit → Bandit
  bandit_or_new none = fit (neutral arms)
  bandit_or_new (some b) = b

  bandit_of-put_ne :
      (segment other : String) (b : Bandit) (bandits : List (String × Bandit))
      → other ≢ segment
      → bandit_of mab other (put mab segment b bandits) ≡ bandit_of mab other bandits
  bandit_of-put_ne segment other b [] h = refl
  bandit_of-put_ne segment other b ((s, c) ∷ rest) h = elim (Bool-cases (str_eq s segment)) [
    | inl here ↦ let apart = names_apart s segment other here h in ground (arith, here, apart)
    | inr there ↦ ground (arith, there, bandit_of-put_ne segment other b rest h)
  ]

  bandit_of-put :
      (segment : String) (b c : Bandit) (bandits : List (String × Bandit))
      → bandit_of mab segment bandits ≡ some c
      → bandit_of mab segment (put mab segment b bandits) ≡ some b
  bandit_of-put segment b c [] h = absurd (cc h)
  bandit_of-put segment b c ((s, d) ∷ rest) h = elim (Bool-cases (str_eq s segment)) [
    | inl here ↦ ground (arith, here)
    | inr there ↦ ground (arith, there, h, bandit_of-put segment b c rest)
  ]

  -- A segment has its bandit once it was asked for, and no other segment is touched.
  abbrev pub IsCreated : String → List (String × Bandit) → Bandit × List (String × Bandit) → Type 0
  IsCreated segment bandits (b, all) =
      (b ≡ bandit_or_new (bandit_of mab segment bandits))
      × (bandit_of mab segment all ≡ some b)
      × ((other : String) → other ≢ segment → bandit_of mab other all ≡ bandit_of mab other bandits)

  pub get_or_create_bandit-IsCreated :
      (segment : String) (bandits : List (String × Bandit))
      → IsCreated segment bandits (get_or_create_bandit mab segment bandits)
  unfolding get_or_create_bandit
  get_or_create_bandit-IsCreated segment bandits = go (bandit_of mab segment bandits) refl
    where
      go :
          (found : Option Bandit)
          → bandit_of mab segment bandits ≡ found
          → IsCreated segment bandits (created mab segment bandits found)
      go none e = (
        sym (ap bandit_or_new e),
        ap (λ b. if b then some (fit (neutral arms)) else bandit_of mab segment bandits)
            (eq_refl segment),
        λ other h.
            let apart = names_apart segment segment other (eq_refl segment) h in
            ap (λ b. if b then some (fit (neutral arms)) else bandit_of mab other bandits) apart,
      )
      go (some b) e = (sym (ap bandit_or_new e), e, λ other h. refl)

  -- An update of an arm that does not exist is refused. Any other teaches the segment's bandit the
  -- reward of the channel, a new bandit where the segment had none, and leaves those of all other
  -- segments as they were.
  pub update-cases :
      (segment channel : String) (recovered : Bool) (bandits : List (String × Bandit))
      → (holds channel arms ≡ false → update mab segment channel recovered bandits ≡ none)
        × (holds channel arms ≡ true
            → (after : List (String × Bandit)) × (update mab segment channel recovered bandits
                ≡ some after)
              × (bandit_of mab segment after
                  ≡ some (
                      partial_fit channel
                        (if recovered then 1 else 0)
                        (bandit_or_new (bandit_of mab segment bandits))))
              × ((other : String)
                  → other ≢ segment
                  → bandit_of mab other after ≡ bandit_of mab other bandits))
  unfolding update
  update-cases segment channel recovered bandits =
      let (same, there, others) = get_or_create_bandit-IsCreated segment bandits in
      let all = (get_or_create_bandit mab segment bandits).1 in
      let taught =
        partial_fit channel (if recovered then 1 else 0)
          (get_or_create_bandit mab segment bandits).0 in
      (
        λ unknown. ap (λ b. if b then some (put mab segment taught all) else none) unknown,
        λ known. (
          put mab segment taught all,
          ap (λ b. if b then some (put mab segment taught all) else none) known,
          bandit_of-put segment taught _ all there
              ∙ ap (λ b. some (partial_fit channel (if recovered then 1 else 0) b)) same,
          λ other h. bandit_of-put_ne segment other taught all h ∙ others other h,
        ),
      )
