-- ===== src/Examples/Policies.antt =====
-- The rules for the small case, and for the large one once it is approved.
use revenueguard_ai.Common.{
  ℕ, ◌+◌, ◌<◌, ◌≤◌, ◌%◌, ◌-◌, ◌≡◌, refl, ◌↔◌, ◌≢◌, true, some, none, value, arith,
}
use revenueguard_ai.Common.Int.{pos, ◌<ℤ◌}
use revenueguard_ai.Models.{
  RecoveryState, default_settings, decision, smart_retry, stop, approved, stored,
  action_of_strategy, amount_of,
}
use revenueguard_ai.Models.Time.{utc, text, hour_us}
use revenueguard_ai.Guardrails.Policy.{check_all, in_quiet_hours, needs_approval}
use revenueguard_ai.Guardrails.Policy.Laws.{check_all_iff, IsPermitted}
use revenueguard_ai.Guardrails.Policy.Quiet.{in_quiet_hours_iff}
use revenueguard_ai.Guardrails.Policy.Approvals.{needs_approval-stored}
use revenueguard_ai.Worker.Persist.{build_state}
use revenueguard_ai.Examples.Texts.{iso, write_date, write_date-nonempty}
use revenueguard_ai.Examples.World.{small_case, large_case, noon}

-- The small case with a retry planned.
abbrev planned : RecoveryState
planned = record (build_state iso small_case none) { strategy = some (decision smart_retry "") }

check_all_iff_example :
    (check_all iso default_settings noon noon planned ≡ (true, none))
    ↔ IsPermitted iso default_settings noon noon planned.case_data (some smart_retry)
check_all_iff_example = check_all_iff iso default_settings noon noon planned

-- From nine in the evening to nine in the morning, at eleven in the evening.
in_quiet_hours_iff_example :
    (in_quiet_hours 21 9 23 ≡ true) ↔ ((23 + 24 - 21) % 24 < (9 + 24 - 21) % 24)
in_quiet_hours_iff_example = in_quiet_hours_iff 21 9 23 (omega arith) (omega arith) (omega arith)

abbrev expiry : ℕ
expiry = noon + hour_us

abbrev allowed : RecoveryState
allowed = record (build_state iso large_case none) {
  strategy = some (decision smart_retry "");
  approval_status = some approved;
  approval_record = some (stored "APR-1" (value (text (write_date (utc expiry)))));
}

needs_approval-stored_example : (needs_approval iso default_settings noon allowed ≡ true) ↔ (
    (pos 5_000_000 <ℤ amount_of allowed.case_data)
    × (action_of_strategy allowed.strategy ≢ some stop)
    × (expiry ≤ noon))
needs_approval-stored_example =
    needs_approval-stored iso default_settings noon expiry "APR-1" allowed
      (write_date-nonempty (utc expiry)) refl refl
