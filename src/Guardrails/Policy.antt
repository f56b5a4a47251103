-- ===== src/Guardrails/Policy.antt =====
-- backend/guardrails/policy_engine.py: PolicyEngine. Each reading of the clock is an argument.
pub mod Laws
pub mod Quiet
pub mod Approvals
use revenueguard_ai.Common.{
  ℕ, ◌+◌, ◌*◌, ◌/◌, ◌%◌, String, Bool, true, false, not, ◌&&◌, ◌||◌, Option, none, some, ltb, leb,
  if◌then◌else◌, truthy, get, Outcome, returned, raised, approval_required, Entry, null, missing,
  value,
}
use revenueguard_ai.Common.Int.{ℤ, pos, ◌-ℤ◌, ltb_ℤ, leb_ℤ}
use revenueguard_ai.Models.{
  ActionType, smart_retry, payment_link, nudge_email, nudge_sms, nudge_whatsapp, escalate_human,
  stop, Settings, RecoveryState, CaseData, customer_from_case, retry_count_of, amount_of,
  action_of_strategy, is_stop, ApprovalStatus, approved, ApprovalEntry, stored, requested,
}
use revenueguard_ai.Models.Time.{Iso, TimeValue, moment, parse_datetime, hour_us, utc}

-- `_customer_contact_actions`, as a test; the text "" is in no set.
unfoldable pub is_customer_contact : Option ActionType → Bool
is_customer_contact (some payment_link) = true
is_customer_contact (some nudge_email) = true
is_customer_contact (some nudge_sms) = true
is_customer_contact (some nudge_whatsapp) = true
is_customer_contact _ = false

-- `_contact_or_retry_actions`
unfoldable pub is_contact_or_retry : Option ActionType → Bool
unfolding is_customer_contact
is_contact_or_retry (some smart_retry) = true
is_contact_or_retry a = is_customer_contact a

abbrev pub stops : Option ActionType → Bool
stops none = false
stops (some a) = is_stop a

abbrev pub escalates : Option ActionType → Bool
escalates (some escalate_human) = true
escalates _ = false

-- The hour of the day in Asia/Kolkata, which is UTC+05:30 all the year.
unfoldable pub hour_ist : ℕ → ℕ
hour_ist now = (now + 19_800_000_000) / hour_us % 24

-- `hour >= start or hour < end if start > end else start <= hour < end`
unfoldable pub in_quiet_hours : ℕ → ℕ → ℕ → Bool
in_quiet_hours start end hour =
    if ltb end start then leb start hour || ltb hour end else leb start hour && ltb hour end

abbrev pub within_cooldown : ℕ → ℕ → Option ℤ → Bool
within_cooldown hours now none = false
within_cooldown hours now (some last) = ltb_ℤ (pos now -ℤ last) (pos (hours * hour_us))

-- The two checks that read the clock, in their order.
unfoldable pub check_clock :
    Iso → Settings → ℕ → ℕ → CaseData → Option ActionType → Bool × Option String
check_clock iso settings cooldown_now quiet_now case action =
    if is_contact_or_retry action
      && within_cooldown settings.cooldown_hours cooldown_now
          (parse_datetime iso (get case.last_retry_at none))
    then (false, some "Recovery cooldown is still active")
    else if is_customer_contact action
        && in_quiet_hours settings.quiet_hours_start settings.quiet_hours_end (hour_ist quiet_now)
    then (false, some "Customer contact blocked during quiet hours")
    else (true, none)

unfoldable pub check_all : Iso → Settings → ℕ → ℕ → RecoveryState → Bool × Option String
check_all iso settings cooldown_now quiet_now state =
    let case = state.case_data in
    let action = action_of_strategy state.strategy in
    if truthy (customer_from_case case).opted_out && not (stops action)
    then (false, some "Customer opted out")
    else if leb_ℤ (pos settings.max_retry_attempts) (retry_count_of case) && not (stops action)
    then (false, some "Maximum retry attempts reached")
    else if ltb_ℤ (amount_of case) (pos 10_000) && not (stops action || escalates action)
    then (false, some "Recovery amount is below INR 100 cost threshold")
    else check_clock iso settings cooldown_now quiet_now case action

-- `approval.get("expires_at")`: a new request holds the text of its moment.
abbrev pub expires_at_of : Iso → Option ApprovalEntry → Entry TimeValue
expires_at_of iso none = missing
expires_at_of iso (some (stored id e)) = e
expires_at_of iso (some (requested r)) = value (TimeValue.text (iso.to_iso (utc r.expires_at)))

-- `if not expires_at`: absent, `None` or the empty text.
abbrev pub has_expiry : Entry TimeValue → Option TimeValue
has_expiry missing = none
has_expiry null = none
has_expiry (value (TimeValue.text String.[])) = none
has_expiry (value v) = some v

abbrev pub expires_after : ℕ → Option ℤ → Bool
expires_after now none = false
expires_after now (some t) = ltb_ℤ (pos now) t

abbrev pub is_approved : Option ApprovalStatus → Bool
is_approved (some approved) = true
is_approved _ = false

unfoldable pub has_valid_approval : Iso → ℕ → RecoveryState → Bool
has_valid_approval iso now state =
    if is_approved state.approval_status
    then elim (has_expiry (expires_at_of iso state.approval_record)) [
      | none ↦ true
      | some e ↦ expires_after now (parse_datetime iso (some e))
    ]
    else false

unfoldable pub needs_approval : Iso → Settings → ℕ → RecoveryState → Bool
needs_approval iso settings now state =
    ltb_ℤ (pos settings.high_value_threshold) (amount_of state.case_data)
    && not (stops (action_of_strategy state.strategy))
    && not (has_valid_approval iso now state)

unfoldable pub assert_approved : Iso → Settings → ℕ → RecoveryState → Outcome (Unit {0})
assert_approved iso settings now state =
    if needs_approval iso settings now state then raised approval_required else returned tt
