-- ===== src/Experiments/Analyzer/Laws.antt =====
-- What ExperimentAnalyzer.analyze returns for every combination of counts.
use revenueguard_ai.Common.{false, ◌≢◌}
use revenueguard_ai.Common.{
  ℕ, ◌+◌, ◌==◌, ◌≤◌, ◌<◌, ◌≡◌, refl, ap, ◌∙◌, ◌⊎◌, String, true, Option, none, some, if◌then◌else◌,
  arith, ◌||◌,
}
use revenueguard_ai.Common.Int.{ℤ, pos, ◌<ℤ◌, clamp_zero}
use revenueguard_ai.Common.Floats.{Floats}
use revenueguard_ai.Ingestion.Json.{◌>>=◌}
use revenueguard_ai.Experiments.Analyzer.{
  negative_count, recovered_above_total, StatisticalTests, Analysis, analysed, refused, rate_of,
  recovery_test, standard_error, relative_of, arm_of, report, analyze_counts, validate_counts,
  unless_invalid, result_or, analyze,
}
use revenueguard_ai.Experiments.Analyzer.Computed.{
  rate_of-IsRate, bind-some, standard_error-some, relative_of-some,
}

module _ (float : Floats) where
  open float use {
    Float, IsNonnegative, IsAtMostOne, zero, one, of_ℕ, plus, minus, times, quotient, sqrt, is_zero,
  }

  -- What a report says of its arms, and of an arm that is empty.
  pub record IsReport (tests : StatisticalTests float) (experiment_id : String)
      (control_recovered control_total : ℕ) (variant_recovered variant_total : ℕ)
      (a : Analysis float) : Type 0 where
    pub same_experiment : a.experiment_id ≡ experiment_id
    pub control_counts :
        (a.control.recovered ≡ control_recovered) × (a.control.total ≡ control_total)
    pub variant_counts :
        (a.variant.recovered ≡ variant_recovered) × (a.variant.total ≡ variant_total)
    pub whole_sample : a.sample_size ≡ control_total + variant_total
    pub control_rate : rate_of float control_recovered control_total ≡ some a.control.recovery_rate
    pub variant_rate : rate_of float variant_recovered variant_total ≡ some a.variant.recovery_rate
    pub difference : a.absolute_lift ≡ minus a.variant.recovery_rate a.control.recovery_rate
    pub tested :
        control_total ≢ 0
        → variant_total ≢ 0
        → ◌≡◌ {A = Float × Float}
            (a.z_statistic, a.p_value)
            (tests.proportions_ztest
              (variant_recovered, control_recovered)
              (variant_total, control_total))
    pub untested :
        (control_total ≡ 0) ⊎ (variant_total ≡ 0) → (a.z_statistic ≡ zero) × (a.p_value ≡ one)

  module _ (tests : StatisticalTests float) (experiment_id : String) where
    tested_lem :
        (cr ct vr vt : ℕ)
        → ct ≢ 0
        → vt ≢ 0
        → recovery_test float tests cr ct vr vt ≡ tests.proportions_ztest (vr, cr) (vt, ct)
    unfolding recovery_test
    tested_lem cr ct vr vt hc hv =
        ap (λ b. if b then (zero, one) else tests.proportions_ztest (vr, cr) (vt, ct)) filled
      where
        filled : (ct == 0 || vt == 0) ≡ false
        filled = ground (arith, hc, hv)

    untested_lem :
        (cr ct vr vt : ℕ)
        → (ct ≡ 0) ⊎ (vt ≡ 0)
        → recovery_test float tests cr ct vr vt ≡ (zero, one)
    unfolding recovery_test
    untested_lem cr ct vr vt empty =
        ap (λ b. if b then (zero, one) else tests.proportions_ztest (vr, cr) (vt, ct)) is_empty
      where
        is_empty : (ct == 0 || vt == 0) ≡ true
        is_empty = ground arith

    analyze_counts-IsReport :
        (cr ct vr vt : ℕ)
        → cr ≤ ct
        → vr ≤ vt
        → (a : Analysis float) × (analyze_counts float tests experiment_id cr ct vr vt ≡ some a)
          × IsReport tests experiment_id cr ct vr vt a
    unfolding analyze_counts report
    analyze_counts-IsReport cr ct vr vt hc hv =
        let (p, ep, p_low, p_high) = rate_of-IsRate float cr ct hc in
        let (q, eq, q_low, q_high) = rate_of-IsRate float vr vt hv in
        let (l, el) = relative_of-some float (minus q p) p in
        let (e, ee) = standard_error-some float p ct q vt p_low p_high q_low q_high in
        (
          _,
          bind-some float (λ p. rate_of float vr vt >>= λ q. last p q) ep
              ∙ bind-some float (λ q. last p q) eq
              ∙ bind-some float (λ l. standard_error float p ct q vt >>= λ e. some (final p q l e))
                  el
              ∙ bind-some float (λ e. some (final p q l e)) ee,
          record {
            same_experiment = refl;
            control_counts = (refl, refl);
            variant_counts = (refl, refl);
            whole_sample = refl;
            control_rate = ep;
            variant_rate = eq;
            difference = refl;
            tested = tested_lem cr ct vr vt;
            untested = λ empty. (
              ap (λ t. t.0) (untested_lem cr ct vr vt empty),
              ap (λ t. t.1) (untested_lem cr ct vr vt empty),
            );
          },
        )
      where
        final : Float → Float → Float → Float → Analysis float
        final p q l e =
            report float tests experiment_id (arm_of float cr ct p) (arm_of float vr vt q) l e

        last : Float → Float → Option (Analysis float)
        last p q = relative_of float (minus q p) p >>= λ l.
            standard_error float p ct q vt >>= λ e. some (final p q l e)

negative-refused :
    (a b c d : ℤ)
    → (a <ℤ pos 0) ⊎ (b <ℤ pos 0) ⊎ (c <ℤ pos 0) ⊎ (d <ℤ pos 0)
    → (float : Floats) → validate_counts float a b c d ≡ some negative_count
unfolding validate_counts
negative-refused a b c d h float = ground arith

above-refused :
    (cr ct vr vt : ℕ)
    → (ct < cr) ⊎ (vt < vr)
    → (float : Floats)
    → validate_counts float (pos cr) (pos ct) (pos vr) (pos vt) ≡ some recovered_above_total
unfolding validate_counts
above-refused cr ct vr vt h float = ground arith

valid-passed :
    (cr ct vr vt : ℕ)
    → cr ≤ ct
    → vr ≤ vt
    → (float : Floats) → validate_counts float (pos cr) (pos ct) (pos vr) (pos vt) ≡ none
unfolding validate_counts
valid-passed cr ct vr vt hc hv float = ground arith

module _ (float : Floats) (tests : StatisticalTests float) (experiment_id : String)
    (cr ct vr vt : ℕ) where
  analyze_above :
      (ct < cr) ⊎ (vt < vr)
      → analyze float tests experiment_id (pos cr) (pos ct) (pos vr) (pos vt)
        ≡ refused recovered_above_total
  unfolding analyze
  analyze_above above =
      ap (λ o. unless_invalid float o (analyze_counts float tests experiment_id cr ct vr vt))
        (above-refused cr ct vr vt above float)

  -- Of counts that are valid.
  pub analyze_valid :
      cr ≤ ct
      → vr ≤ vt
      → (a : Analysis float) × (analyze float tests experiment_id
            (pos cr)
            (pos ct)
            (pos vr)
            (pos vt)
          ≡ analysed a)
        × IsReport float tests experiment_id cr ct vr vt a
  unfolding analyze
  analyze_valid hc hv =
      let (a, e, r) = analyze_counts-IsReport float tests experiment_id cr ct vr vt hc hv in
      (
        a,
        ap (λ o. unless_invalid float o (analyze_counts float tests experiment_id cr ct vr vt))
              (valid-passed cr ct vr vt hc hv float)
            ∙ ap (λ o. result_or float o) e,
        r,
      )

-- Of integers, `analyze` refuses a negative count, and then a count of recoveries above its total. For
-- all other counts it returns a report on them: no division by zero and no root of a negative number
-- stops it, and where an arm is empty, the statistic is 0 and the p-value 1.
pub analyze-cases :
    (float : Floats) (tests : StatisticalTests float) (experiment_id : String)
    (control_recovered control_total variant_recovered variant_total : ℤ)
    → let result =
        analyze float tests experiment_id control_recovered control_total variant_recovered
          variant_total in
      ((control_recovered <ℤ pos 0)
          ⊎ (control_total <ℤ pos 0)
          ⊎ (variant_recovered <ℤ pos 0)
          ⊎ (variant_total <ℤ pos 0)
        → result ≡ refused negative_count)
      × ((cr ct vr vt : ℕ)
          → control_recovered ≡ pos cr
          → control_total ≡ pos ct
          → variant_recovered ≡ pos vr
          → variant_total ≡ pos vt
          → ((ct < cr) ⊎ (vt < vr) → result ≡ refused recovered_above_total)
            × (cr ≤ ct
                → vr ≤ vt
                → (a : Analysis float) × (result ≡ analysed a)
                  × IsReport float tests experiment_id cr ct vr vt a))
analyze-cases float tests experiment_id control_recovered control_total variant_recovered
      variant_total =
    (
      λ negative.
          unfold analyze in
          ap
            (λ o. unless_invalid float o (
              analyze_counts float tests experiment_id (clamp_zero control_recovered)
                (clamp_zero control_total) (clamp_zero variant_recovered)
                (clamp_zero variant_total)))
            (negative-refused control_recovered control_total variant_recovered variant_total
              negative float),
      λ cr ct vr vt ec et ev ew. (
        λ above. same ec et ev ew ∙ analyze_above float tests experiment_id cr ct vr vt above,
        λ hc hv.
            let (a, e, r) = analyze_valid float tests experiment_id cr ct vr vt hc hv in
            (a, same ec et ev ew ∙ e, r),
      ),
    )
  where
    same :
        {cr ct vr vt : ℕ}
        → control_recovered ≡ pos cr
        → control_total ≡ pos ct
        → variant_recovered ≡ pos vr
        → variant_total ≡ pos vt
        → analyze float tests experiment_id control_recovered control_total variant_recovered
            variant_total
          ≡ analyze float tests experiment_id (pos cr) (pos ct) (pos vr) (pos vt)
    same ec et ev ew = cc
