-- ===== src/Guardrails/Policy/Quiet.antt =====
-- The quiet hours as an arc of the clock face.
use revenueguard_ai.Common.{ℕ, ◌+◌, ◌-◌, ◌%◌, ◌<◌, ◌≡◌, ◌↔◌, true, arith}
use revenueguard_ai.Guardrails.Policy.{in_quiet_hours}

-- For hours of a day, an hour is quiet exactly when, counted onwards from the start of the quiet
-- hours and round midnight, it comes before their end.
pub in_quiet_hours_iff :
    (start end hour : ℕ)
    → start < 24
    → end < 24
    → hour < 24
    → (in_quiet_hours start end hour ≡ true) ↔ ((hour + 24 - start) % 24 < (end + 24 - start) % 24)
unfolding in_quiet_hours
in_quiet_hours_iff start end hour hs he hh = (λ q. ground arith, λ q. ground arith)
