-- ===== src/Api/Metrics/Laws.antt =====
-- The numbers of the dashboard agree with each other.
use revenueguard_ai.Common.{
  ℕ, ◌+◌, ◌==◌, ◌≤◌, ◌≡◌, refl, ap, ◌∙◌, inl, inr, Bool, true, false, ◌&&◌, Bool-cases, Option,
  none, some, List, [], ◌∷◌, if◌then◌else◌, arith, length, filter, All,
}
use revenueguard_ai.Common.Floats.{Floats}
use revenueguard_ai.Models.{ExperimentArm, control, treatment}
use revenueguard_ai.Database.{RecoveryCase, Database}
use revenueguard_ai.Experiments.Analyzer.{rate_of}
use revenueguard_ai.Experiments.Analyzer.Computed.{rate_of-IsRate, bind-some}
use revenueguard_ai.Api.Metrics.{
  is_recovered, same_arm, total_in, recovered_in, ArmMetrics, Metrics, arm_metrics, group_by,
  all_arms, metrics,
}

-- A stricter condition is met at most as often.
length-filter_le :
    {A : Type 0} (p q : A → Bool)
    → ((a : A) → p a ≡ true → q a ≡ true)
    → (l : List A) → length (filter p l) ≤ length (filter q l)
unfolding filter
length-filter_le p q h [] = omega arith
length-filter_le p q h (a ∷ l) = ground (arith, h a, length-filter_le p q h l)

pub recovered_in_le :
    (arm : Option ExperimentArm) (cases : List RecoveryCase)
    → recovered_in arm cases ≤ total_in arm cases
unfolding recovered_in total_in
recovered_in_le arm cases = length-filter_le _ _ (λ c h. ground arith) cases

-- Each case is in one group.
length-filter_all :
    {A : Type 0} (p q r s : A → Bool)
    → ((a : A)
        → (if p a then 1 else 0) + (if q a then 1 else 0) + (if r a then 1 else 0)
          ≡ (if s a then 1 else 0))
    → (l : List A)
    → length (filter p l) + length (filter q l) + length (filter r l) ≡ length (filter s l)
unfolding filter
length-filter_all p q r s h [] = omega arith
length-filter_all p q r s h (a ∷ l) = ground (arith, h a, length-filter_all p q r s h l)

length-filter-true : {A : Type 0} (l : List A) → length (filter (λ a. true) l) ≡ length l
unfolding filter
length-filter-true [] = refl
length-filter-true (a ∷ l) = omega (arith, length-filter-true l)

module _ (cases : List RecoveryCase) where
  totals :
      total_in none cases + total_in (some control) cases + total_in (some treatment) cases
      ≡ length cases
  unfolding total_in
  totals =
      length-filter_all (λ c. same_arm c.experiment_arm none)
        (λ c. same_arm c.experiment_arm (some control))
        (λ c. same_arm c.experiment_arm (some treatment)) (λ c. true)
        (λ c. one_group c.experiment_arm) cases
      ∙ length-filter-true cases
    where
      one_group :
          (arm : Option ExperimentArm)
          → (if same_arm arm none then 1 else 0)
              + (if same_arm arm (some control) then 1 else 0)
              + (if same_arm arm (some treatment) then 1 else 0)
            ≡ 1
      one_group none = omega arith
      one_group (some control) = omega arith
      one_group (some treatment) = omega arith

  recoveries :
      recovered_in none cases
        + recovered_in (some control) cases
        + recovered_in (some treatment) cases
      ≡ length (filter is_recovered cases)
  unfolding recovered_in
  recoveries =
      length-filter_all (λ c. same_arm c.experiment_arm none && is_recovered c)
        (λ c. same_arm c.experiment_arm (some control) && is_recovered c)
        (λ c. same_arm c.experiment_arm (some treatment) && is_recovered c) is_recovered
        (λ c. one_group c.experiment_arm (is_recovered c)) cases
    where
      one_group :
          (arm : Option ExperimentArm) (b : Bool)
          → (if same_arm arm none && b then 1 else 0)
              + (if same_arm arm (some control) && b then 1 else 0)
              + (if same_arm arm (some treatment) && b then 1 else 0)
            ≡ (if b then 1 else 0)
      one_group none true = omega arith
      one_group none false = omega arith
      one_group (some control) true = omega arith
      one_group (some control) false = omega arith
      one_group (some treatment) true = omega arith
      one_group (some treatment) false = omega arith

module _ (float : Floats) where
  abbrev pub sum_totals : List (ArmMetrics float) → ℕ
  sum_totals [] = 0
  sum_totals (m ∷ ms) = m.total + sum_totals ms

  abbrev pub sum_recoveries : List (ArmMetrics float) → ℕ
  sum_recoveries [] = 0
  sum_recoveries (m ∷ ms) = m.recovered + sum_recoveries ms

  -- An entry: it has cases, no more recoveries than cases, and a rate between 0 and 1.
  pub record IsEntry (m : ArmMetrics float) : Type 0 where
    pub filled : 1 ≤ m.total
    pub bounded : m.recovered ≤ m.total
    pub rate : rate_of float m.recovered m.total ≡ some m.recovery_rate
    pub rate-IsNonnegative : float.IsNonnegative m.recovery_rate
    pub rate-IsAtMostOne : float.IsAtMostOne m.recovery_rate

  module _ (cases : List RecoveryCase) where
    abbrev totals_of : List (Option ExperimentArm) → ℕ
    totals_of [] = 0
    totals_of (arm ∷ arms) = total_in arm cases + totals_of arms

    abbrev recoveries_of : List (Option ExperimentArm) → ℕ
    recoveries_of [] = 0
    recoveries_of (arm ∷ arms) = recovered_in arm cases + recoveries_of arms

    arm_metrics-IsEntry :
        (arm : Option ExperimentArm)
        → (m : ArmMetrics float) × (arm_metrics float arm cases ≡ some m)
          × (1 ≤ total_in arm cases → IsEntry m)
          × (m.total ≡ total_in arm cases)
          × (m.recovered ≡ recovered_in arm cases)
    unfolding arm_metrics
    arm_metrics-IsEntry arm =
        let (q, e, low, high) =
          rate_of-IsRate float (recovered_in arm cases) (total_in arm cases)
            (recovered_in_le arm cases) in
        (
          _,
          bind-some float _ e,
          λ filled. record {
            filled = filled;
            bounded = recovered_in_le arm cases;
            rate = e;
            rate-IsNonnegative = low;
            rate-IsAtMostOne = high;
          },
          refl,
          refl,
        )

    group_by-IsEntry :
        (arms : List (Option ExperimentArm))
        → (l : List (ArmMetrics float)) × (group_by float arms cases ≡ some l)
          × All IsEntry l
          × (sum_totals l ≡ totals_of arms)
          × (sum_recoveries l ≡ recoveries_of arms)
    unfolding group_by
    group_by-IsEntry [] = ([], refl, tt, refl, refl)
    group_by-IsEntry (arm ∷ arms) =
        let (l, e, entries, st, sr) = group_by-IsEntry arms in
        let (m, em, entry, mt, mr) = arm_metrics-IsEntry arm in
        let whole =
          bind-some float _ e
          ∙ bind-some float (λ m. some (if total_in arm cases == 0 then l else m ∷ l)) em in
        let few = recovered_in_le arm cases in
        elim (Bool-cases (total_in arm cases == 0)) [
          | inl empty ↦ (
            l,
            whole ∙ ap (λ b. some (if b then l else m ∷ l)) empty,
            entries,
            ground arith,
            ground arith,
          )
          | inr filled ↦ (
            m ∷ l,
            whole ∙ ap (λ b. some (if b then l else m ∷ l)) filled,
            (entry (ground arith), entries),
            omega arith,
            omega arith,
          )
        ]

-- The dashboard's numbers are always computed. Its groups have at least one case each, no more
-- recoveries than cases, and a rate between 0 and 1; their totals add up to the number of all cases,
-- and their recoveries to the number of recovered cases, whose rate is the overall one.
pub metrics-sums :
    (float : Floats) (db : Database)
    → (m : Metrics float) × (metrics float db ≡ some m)
      × (m.total_events ≡ length db.cases)
      × All (IsEntry float) m.by_experiment_arm
      × (sum_totals float m.by_experiment_arm ≡ m.total_events)
      × (rate_of float (sum_recoveries float m.by_experiment_arm) m.total_events
          ≡ some m.recovery_rate)
      × (sum_recoveries float m.by_experiment_arm ≡ length (filter is_recovered db.cases))
unfolding metrics
metrics-sums float db =
    let (l, e, entries, st, sr) = group_by-IsEntry float db.cases (all_arms float) in
    let (q, eq, low, high) =
      rate_of-IsRate float (length (filter is_recovered db.cases)) (length db.cases)
        (few db.cases) in
    let recovered_sum : sum_recoveries float l ≡ length (filter is_recovered db.cases) =
      sr ∙ omega (arith, recoveries db.cases) in
    (
      _,
      bind-some float _ e ∙ bind-some float _ eq,
      refl,
      entries,
      st ∙ omega (arith, totals db.cases),
      ap (λ n. rate_of float n (length db.cases)) recovered_sum ∙ eq,
      recovered_sum,
    )
  where
    few : (cases : List RecoveryCase) → length (filter is_recovered cases) ≤ length cases
    few cases = omega (
      arith,
      length-filter-true cases,
      length-filter_le is_recovered (λ c. true) (λ c h. refl) cases,
    )
