-- ===== src/Ml/Bandit/Choice.antt =====
-- The channel that is chosen.
use text.Mathlib.TextPositions.{eq_refl}
use mathlib.Core.Path.{subst}
use revenueguard_ai.Common.{
  ℕ, ◌≤◌, ◌≡◌, ◌≢◌, refl, ap, ◌∙◌, String, Bool, true, false, Option, none, some, List, [], ◌∷◌,
  All, ltb, if◌then◌else◌, arith,
}
use revenueguard_ai.Ml.Bandit.{
  Mab, holds, bandit_of, get_or_create_bandit, eligible_arms, best_of, best_among, select_arm,
}
use revenueguard_ai.Ml.Bandit.Laws.{bandit_or_new, get_or_create_bandit-IsCreated}

module _ (f : String → ℕ) where
  -- A channel of the list that none of the list exceeds.
  abbrev pub IsBest : String → List String → Type 0
  IsBest c l = (holds c l ≡ true) × All (λ d. f d ≤ f c) l

  abbrev pub IsChoice : Option String → List String → Type 0
  IsChoice none l = l ≡ []
  IsChoice (some c) l = IsBest c l

  best_of-IsBest :
      (mab : Mab) (c : String) (ds : List String) → IsBest (best_of mab f c ds) (c ∷ ds)
  best_of-IsBest mab c [] = (ground (arith, eq_refl c), (omega arith, tt))
  best_of-IsBest mab c (d ∷ ds) =
      go (ltb (f c) (f d)) refl (best_of-IsBest mab c ds) (best_of-IsBest mab d ds)
    where
      go :
          (b : Bool)
          → ltb (f c) (f d) ≡ b
          → IsBest (best_of mab f c ds) (c ∷ ds)
          → IsBest (best_of mab f d ds) (d ∷ ds)
          → IsBest (best_of mab f (if b then d else c) ds) (c ∷ d ∷ ds)
      go true e keep change = (ground (arith, change.0), (ground (arith, e, change.1.0), change.1))
      go false e keep change =
          (ground (arith, keep.0), (keep.1.0, (ground (arith, e, keep.1.0), keep.1.1)))

  best_among-IsChoice : (mab : Mab) (l : List String) → IsChoice (best_among mab f l) l
  best_among-IsChoice mab [] = refl
  best_among-IsChoice mab (c ∷ cs) = best_of-IsBest mab c cs

-- The chosen channel is one of the eligible ones, and no other of them has a higher expectation by the
-- segment's bandit; there is none only when no channel is eligible. The segment has its bandit
-- afterwards, and no other segment is touched.
pub select_arm-IsChoice :
    (mab : Mab) (draw : mab.Bandit → String → ℕ) (segment : String)
    (channels : Option (List String)) (bandits : List (String × mab.Bandit))
    → let bandit = bandit_or_new mab (bandit_of mab segment bandits) in
      let result = select_arm mab draw segment channels bandits in
      IsChoice (draw bandit) result.0 (eligible_arms mab channels)
      × (bandit_of mab segment result.1 ≡ some bandit)
      × ((other : String)
          → other ≢ segment
          → bandit_of mab other result.1 ≡ bandit_of mab other bandits)
unfolding select_arm
select_arm-IsChoice mab draw segment channels bandits =
    let (same, there, others) = get_or_create_bandit-IsCreated mab segment bandits in
    (
      subst
          (λ b.
            IsChoice (draw b)
              (best_among mab (draw (get_or_create_bandit mab segment bandits).0)
                (eligible_arms mab channels))
              (eligible_arms mab channels))
          same
          (best_among-IsChoice (draw (get_or_create_bandit mab segment bandits).0) mab
            (eligible_arms mab channels)),
      there ∙ ap some same,
      others,
    )
