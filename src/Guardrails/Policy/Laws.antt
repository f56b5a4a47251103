-- ===== src/Guardrails/Policy/Laws.antt =====
-- When the policy engine lets an action pass.
use revenueguard_ai.Common.{
  ℕ, ◌*◌, String, ◌≡◌, refl, ◌↔◌, ◌⊎◌, ◌≢◌, Bool, true, false, Option, none, some, arith, truthy,
  get,
}
use revenueguard_ai.Common.Int.{ℤ, pos, ◌-ℤ◌, ◌≤ℤ◌, ◌<ℤ◌}
use revenueguard_ai.Models.{
  ActionType, stop, escalate_human, Settings, RecoveryState, CaseData, customer_from_case,
  retry_count_of, amount_of, action_of_strategy,
}
use revenueguard_ai.Models.Time.{Iso, parse_datetime, hour_us}
use revenueguard_ai.Guardrails.Policy.{
  check_all, check_clock, is_contact_or_retry, is_customer_contact, in_quiet_hours, hour_ist,
  within_cooldown,
}

-- What the rules demand, without their order.
pub record IsPermitted (iso : Iso) (settings : Settings) (cooldown_now quiet_now : ℕ)
    (case : CaseData) (action : Option ActionType) : Type 0 where
  pub reachable : truthy (customer_from_case case).opted_out ≡ true → action ≡ some stop
  pub below_limit : pos settings.max_retry_attempts ≤ℤ retry_count_of case → action ≡ some stop
  pub worth_it :
      amount_of case <ℤ pos 10_000 → (action ≡ some stop) ⊎ (action ≡ some escalate_human)
  pub rested :
      is_contact_or_retry action ≡ true
      → (last : ℤ) → parse_datetime iso (get case.last_retry_at none) ≡ some last
      → pos (settings.cooldown_hours * hour_us) ≤ℤ (pos cooldown_now -ℤ last)
  pub polite :
      is_customer_contact action ≡ true
      → in_quiet_hours settings.quiet_hours_start settings.quiet_hours_end (hour_ist quiet_now)
        ≡ false

-- No retry is remembered, or the last one is old enough.
abbrev IsRested : ℕ → ℕ → Option ℤ → Type 0
IsRested hours now o = (last : ℤ) → o ≡ some last → pos (hours * hour_us) ≤ℤ (pos now -ℤ last)

not_within_cooldown :
    (hours now : ℕ) (o : Option ℤ) → IsRested hours now o → within_cooldown hours now o ≡ false
not_within_cooldown hours now none h = refl
not_within_cooldown hours now (some last) h = ground (arith, h last refl)

IsRested-of_test :
    (hours now : ℕ) (o : Option ℤ) → within_cooldown hours now o ≡ false → IsRested hours now o
IsRested-of_test hours now o h last e = ground arith

module _ (iso : Iso) (settings : Settings) (cooldown_now quiet_now : ℕ)
    (state : RecoveryState) where
  abbrev verdict : Bool × Option String
  verdict = check_all iso settings cooldown_now quiet_now state

  abbrev Permitted : Type 0
  Permitted =
      IsPermitted iso settings cooldown_now quiet_now state.case_data
        (action_of_strategy state.strategy)

  allowed-IsPermitted : verdict ≡ (true, none) → Permitted
  unfolding check_all check_clock
  allowed-IsPermitted h = record {
    reachable = λ out. ground arith;
    below_limit = λ many. ground arith;
    worth_it = λ small. ground arith;
    rested = λ acts. IsRested-of_test _ _ _ (ground arith);
    polite = λ acts. ground arith;
  }

  IsPermitted-allowed : Permitted → verdict ≡ (true, none)
  unfolding check_all check_clock
  IsPermitted-allowed p =
      let action = action_of_strategy state.strategy in
      let cool : is_contact_or_retry action ≡ true
          → within_cooldown settings.cooldown_hours cooldown_now
              (parse_datetime iso (get state.case_data.last_retry_at none))
            ≡ false =
        λ acts. not_within_cooldown _ _ _ (p.rested acts) in
      ground (arith, cool, p.reachable, p.below_limit, p.worth_it, p.polite)

-- The checks all pass exactly when: the customer has not opted out, the retries are below the limit,
-- and the amount is worth it, unless the action is `stop` (or, for the amount, an escalation); a
-- contact or retry comes no sooner than the cooldown after the last retry; and no customer is
-- contacted in the quiet hours.
pub check_all_iff :
    (iso : Iso) (settings : Settings) (cooldown_now quiet_now : ℕ) (state : RecoveryState)
    → (check_all iso settings cooldown_now quiet_now state ≡ (true, none))
      ↔ IsPermitted iso settings cooldown_now quiet_now state.case_data
          (action_of_strategy state.strategy)
check_all_iff iso settings cooldown_now quiet_now state = (
  allowed-IsPermitted iso settings cooldown_now quiet_now state,
  IsPermitted-allowed iso settings cooldown_now quiet_now state,
)

-- A verdict is a pass with no reason, or a block with one.
pub data IsVerdict (v : Bool × Option String) : Type 0 where
  pass : v ≡ (true, none) → IsVerdict v
  block : (reason : String) → v ≡ (false, some reason) → IsVerdict v

IsVerdict-of :
    (v : Bool × Option String)
    → (v.0 ≡ true → v.1 ≡ none)
    → (v.0 ≡ false → v.1 ≢ none)
    → IsVerdict v
IsVerdict-of (true, reason) p b = pass (ground (arith, p refl))
IsVerdict-of (false, none) p b = absurd (b refl refl)
IsVerdict-of (false, some reason) p b = block reason refl

pub check_all-IsVerdict :
    (iso : Iso) (settings : Settings) (cooldown_now quiet_now : ℕ) (state : RecoveryState)
    → IsVerdict (check_all iso settings cooldown_now quiet_now state)
unfolding check_all check_clock
check_all-IsVerdict iso settings cooldown_now quiet_now state =
    IsVerdict-of _ (λ h. ground arith) (λ h. ground arith)
