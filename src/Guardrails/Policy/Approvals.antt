-- ===== src/Guardrails/Policy/Approvals.antt =====
-- What a stored approval is worth.
use revenueguard_ai.Common.{ℕ, String, ◌≡◌, refl, ◌↔◌, ◌≢◌, true, some, arith, value, ◌≤◌, ltb}
use revenueguard_ai.Common.Int.{pos, ◌<ℤ◌, ◌-ℤ◌}
use revenueguard_ai.Models.{
  Settings, RecoveryState, amount_of, action_of_strategy, stop, approved, stored,
}
use revenueguard_ai.Models.Time.{Iso, text, utc, parse_datetime}
use revenueguard_ai.Guardrails.Policy.{has_valid_approval, needs_approval, has_expiry}

has_expiry-text : (s : String) → s ≢ String.[] → has_expiry (value (text s)) ≡ some (text s)
has_expiry-text String.[] h = absurd (h refl)
has_expiry-text (String.◌∷◌ c s) h = refl

-- The moment that the worker stores is the moment that the policy engine reads.
pub parse_datetime-to_iso :
    (iso : Iso) (t : ℕ) → parse_datetime iso (some (text (iso.to_iso (utc t)))) ≡ some (pos t)
unfolding parse_datetime ◌-ℤ◌
parse_datetime-to_iso iso t = ground (arith, iso.read_back (utc t))

pub has_valid_approval-stored :
    (iso : Iso) (now expiry : ℕ) (id : String) (state : RecoveryState)
    → iso.to_iso (utc expiry) ≢ String.[]
    → state.approval_status ≡ some approved
    → state.approval_record ≡ some (stored id (value (text (iso.to_iso (utc expiry)))))
    → has_valid_approval iso now state ≡ ltb now expiry
unfolding has_valid_approval
has_valid_approval-stored iso now expiry id state nonempty status record_is =
    rw (status, record_is, has_expiry-text _ nonempty, parse_datetime-to_iso iso expiry)
      (ground arith)

-- An approval that the database holds lets an action pass until it expires: from then on, and only
-- then, a high-value action other than `stop` needs a new one.
pub needs_approval-stored :
    (iso : Iso) (settings : Settings) (now expiry : ℕ) (id : String) (state : RecoveryState)
    → iso.to_iso (utc expiry) ≢ String.[]
    → state.approval_status ≡ some approved
    → state.approval_record ≡ some (stored id (value (text (iso.to_iso (utc expiry)))))
    → (needs_approval iso settings now state ≡ true) ↔ (
        (pos settings.high_value_threshold <ℤ amount_of state.case_data)
        × (action_of_strategy state.strategy ≢ some stop)
        × (expiry ≤ now))
unfolding needs_approval
needs_approval-stored iso settings now expiry id state nonempty status record_is =
    let valid = has_valid_approval-stored iso now expiry id state nonempty status record_is in
    (
      λ h. (ground (arith, valid), ground (arith, valid), ground (arith, valid)),
      λ h. ground (arith, valid),
    )
