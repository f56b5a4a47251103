-- ===== src/Ml/Bandit.antt =====
-- backend/ml/channel_bandit.py: ChannelBandit. The bandit of a segment is the library's; the
-- expectations that it draws are an argument.
pub mod Laws
pub mod Choice
use revenueguard_ai.Common.{
  ℕ, String, str_eq, Bool, true, false, not, ◌&&◌, ◌||◌, Option, none, some, List, [], ◌∷◌, filter,
  if◌then◌else◌, ltb,
}

-- mabwiser's MAB with Thompson sampling over the arms.
pub record Mab : Type 1 where
  pub Bandit : Type 0
  pub fit : List (String × ℕ) → Bandit
  pub partial_fit : String → ℕ → Bandit → Bandit

-- `arms`
abbrev pub arms : List String
arms = "sms" ∷ "email" ∷ "whatsapp" ∷ []

abbrev pub holds : String → List String → Bool
holds s [] = false
holds s (t ∷ ts) = str_eq t s || holds s ts

-- The decisions and rewards of the first fit: one success and one failure of each arm.
abbrev pub neutral : List String → List (String × ℕ)
neutral [] = []
neutral (arm ∷ rest) = (arm, 1) ∷ (arm, 0) ∷ neutral rest

module _ (mab : Mab) where
  open mab use {Bandit, fit, partial_fit}

  abbrev pub bandit_of : String → List (String × Bandit) → Option Bandit
  bandit_of segment [] = none
  bandit_of segment ((s, b) ∷ rest) =
      let found = bandit_of segment rest in if str_eq s segment then some b else found

  abbrev pub created :
      String → List (String × Bandit) → Option Bandit → Bandit × List (String × Bandit)
  created segment bandits (some b) = (b, bandits)
  created segment bandits none = (fit (neutral arms), (segment, fit (neutral arms)) ∷ bandits)

  unfoldable pub get_or_create_bandit :
      String → List (String × Bandit) → Bandit × List (String × Bandit)
  get_or_create_bandit segment bandits = created segment bandits (bandit_of segment bandits)

  -- The bandit is an object that the dictionary keeps: a fit changes it in place.
  abbrev pub put : String → Bandit → List (String × Bandit) → List (String × Bandit)
  put segment b [] = []
  put segment b ((s, c) ∷ rest) =
      let later = put segment b rest in if str_eq s segment then (s, b) ∷ rest else (s, c) ∷ later

  -- `update`, where `none` is a ValueError, which leaves the bandits as they were.
  unfoldable pub update :
      String → String → Bool → List (String × Bandit) → Option (List (String × Bandit))
  update segment channel recovered bandits =
      if holds channel arms
      then some (
          let (b, all) = get_or_create_bandit segment bandits in
          put segment (partial_fit channel (if recovered then 1 else 0) b) all)
      else none

  -- `list(dict.fromkeys(channels))`
  unfoldable pub distinct : List String → List String
  distinct [] = []
  distinct (c ∷ cs) = c ∷ filter (λ d. not (str_eq c d)) (distinct cs)

  abbrev pub all_known : List String → Bool
  all_known [] = true
  all_known (c ∷ cs) = holds c arms && all_known cs

  -- `_eligible_channels`, where `[]` is a ValueError.
  unfoldable pub eligible_arms : Option (List String) → List String
  eligible_arms none = arms
  eligible_arms (some channels) = if all_known (distinct channels) then distinct channels else []

  -- `max(eligible, key=...)`, which keeps the first of the best.
  abbrev pub best_of : (String → ℕ) → String → List String → String
  best_of expectation c [] = c
  best_of expectation c (d ∷ ds) =
      best_of expectation (if ltb (expectation c) (expectation d) then d else c) ds

  abbrev pub best_among : (String → ℕ) → List String → Option String
  best_among expectation [] = none
  best_among expectation (c ∷ cs) = some (best_of expectation c cs)

  -- `select_channel`, with the bandits afterwards: the segment has its bandit in any case.
  unfoldable pub select_arm :
      (Bandit → String → ℕ)
      → String
      → Option (List String)
      → List (String × Bandit)
      → Option String × List (String × Bandit)
  select_arm draw segment channels bandits =
      let (b, all) = get_or_create_bandit segment bandits in
      (best_among (draw b) (eligible_arms channels), all)
