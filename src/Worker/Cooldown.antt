-- ===== src/Worker/Cooldown.antt =====
-- An approval that comes while the cooldown of its own request runs.
use revenueguard_ai.Common.{
  ℕ, ◌+◌, ◌*◌, ◌<◌, ◌≤◌, ◌≡◌, refl, Bool, true, false, String, str_eq, ◌≢◌, Option, none, some,
  List, [], ◌∷◌, ◌++◌, returned, arith, inl, inr, get, Bool-cases, ap, sym, ◌∙◌,
}
use revenueguard_ai.Common.Int.{pos, ◌-ℤ◌}
use revenueguard_ai.Models.{
  RecoveryState, RecoveryAction, ActionType, smart_retry, payment_link, nudge_email, nudge_sms,
  nudge_whatsapp, escalate_human, defer, stop, action_value, pending, ApprovalRecord, requested,
}
use revenueguard_ai.Models.Time.{hour_us, parse_datetime, to_utc}
use revenueguard_ai.Database.{RecoveryCase, Database}
use revenueguard_ai.Guardrails.Policy.{is_contact_or_retry}
use revenueguard_ai.Agents.External.{External}
use revenueguard_ai.Agents.Graph.{invoke}
use revenueguard_ai.Agents.Graph.Ends.{stopped, waiting, acted, IsLawful}
use revenueguard_ai.Agents.Graph.Safety.{invoke-RunEnd}
use revenueguard_ai.Worker.Persist.{build_state, case_data_of, updated_case, is_smart_retry}
use revenueguard_ai.Worker.Process.{start_state}
use revenueguard_ai.Worker.Laws.{start_state-fresh}

-- The case that the worker keeps of a run that asked for the approval of a retry.
updated_case-retried :
    (result : RecoveryState) (now : ℕ) (c : RecoveryCase)
    → is_smart_retry result.strategy ≡ true
    → ((updated_case result now c).last_retry_at ≡ some now)
      × ((updated_case result now c).retry_count ≡ c.retry_count + 1)
unfolding updated_case
updated_case-retried result now c h = ground arith

last_retry_of :
    (ext : External) (c : RecoveryCase) (db : Database) (t : ℕ)
    → c.last_retry_at ≡ some t
    → parse_datetime ext.iso (get (start_state ext c db).case_data.last_retry_at none)
      ≡ some (pos t)
unfolding start_state build_state case_data_of parse_datetime to_utc ◌-ℤ◌
last_retry_of ext c db t h = ground arith

-- No contact and no retry is executed within the cooldown.
acted-rested :
    (ext : External) (c : RecoveryCase) (db : Database) (a : RecoveryAction) (t : ℕ)
    → c.last_retry_at ≡ some t
    → ext.clock.cooldown_check < t + ext.settings.cooldown_hours * hour_us
    → IsLawful ext (start_state ext c db) a.action_type
    → is_contact_or_retry (some a.action_type) ≡ false
unfolding ◌-ℤ◌
acted-rested ext c db a t last early lawful =
    elim (Bool-cases (is_contact_or_retry (some a.action_type))) [
      | inl contact ↦
          absurd (
            ground (arith, lawful.permitted.rested contact (pos t) (last_retry_of ext c db t last)))
      | inr other ↦ other
    ]

singleton-injective : {A : Type 0} {a b : A} → ◌≡◌ {A = List A} (a ∷ []) (b ∷ []) → a ≡ b
singleton-injective e = cc

pub start_state-actions :
    (ext : External) (c : RecoveryCase) (db : Database)
    → ((start_state ext c db).actions ≡ []) × ((start_state ext c db).error ≡ none)
unfolding start_state build_state
start_state-actions ext c db = (refl, refl)

is_waiting : Option String → Bool
is_waiting none = false
is_waiting (some s) = str_eq s "approval_pending"

not_waiting : (a : ActionType) → is_waiting (some (action_value a)) ≡ false
unfolding action_value is_waiting
not_waiting smart_retry = refl
not_waiting payment_link = refl
not_waiting nudge_email = refl
not_waiting nudge_sms = refl
not_waiting nudge_whatsapp = refl
not_waiting escalate_human = refl
not_waiting defer = refl
not_waiting stop = refl

-- A run that ends waiting made the request that it carries, which lapses two hours later.
waiting-lapses :
    (ext : External) (s result : RecoveryState) (r : ApprovalRecord)
    → s.approval_status ≢ some pending
    → s.error ≡ none
    → invoke ext s ≡ some (returned result)
    → result.final_decision ≡ some "approval_pending"
    → result.approval_record ≡ some (requested r)
    → r.expires_at ≡ r.requested_at + 2 * hour_us
unfolding is_waiting
waiting-lapses ext s result r fresh fine run waits request_is =
    elim (invoke-RunEnd ext s result fresh fine run) [
      | stopped same decision ↦ absurd (other refl (sym decision ∙ waits))
      | waiting q same decision ↦
          let same_request : q.request ≡ r = cc (q.record_is, request_is) in
          rw (sym same_request) q.lapses
      | acted b grown decision lawful ↦
          absurd (other (not_waiting b.action_type) (sym decision ∙ waits))
    ]
  where
    other : {o : Option String} → is_waiting o ≡ false → o ≡ some "approval_pending" → ⊥
    other differs e = cc (differs, ap is_waiting e)

-- A run of a case waits for the approval of a retry; its request, made before the worker keeps the run
-- (at `now`), lapses after two hours. The worker counts and dates the retry nevertheless. With a cooldown
-- of two hours or more (24 by default), what a later run of the kept case executes, if its cooldown is
-- checked before the request lapses, is neither a retry nor a contact.
pub pending_retry-forbids_retry :
    (first : External) (before : Database) (c : RecoveryCase) (result : RecoveryState)
    (r : ApprovalRecord) (now : ℕ) (ext : External) (db : Database) (s' : RecoveryState)
    (a : RecoveryAction)
    → invoke first (start_state first c before) ≡ some (returned result)
    → result.final_decision ≡ some "approval_pending"
    → result.approval_record ≡ some (requested r)
    → is_smart_retry result.strategy ≡ true
    → r.requested_at ≤ now
    → 2 ≤ ext.settings.cooldown_hours
    → ext.clock.cooldown_check < r.expires_at
    → invoke ext (start_state ext (updated_case result now c) db) ≡ some (returned s')
    → s'.actions ≡ a ∷ []
    → (r.expires_at ≡ r.requested_at + 2 * hour_us)
      × ((updated_case result now c).retry_count ≡ c.retry_count + 1)
      × ((updated_case result now c).last_retry_at ≡ some now)
      × (is_contact_or_retry (some a.action_type) ≡ false)
pending_retry-forbids_retry first before c result r now ext db s' a asked waits request_is retry
      made hours valid run acts_is =
    let (first_none, first_fine) = start_state-actions first c before in
    let lapses =
      waiting-lapses first (start_state first c before) result r (start_state-fresh first c before)
        first_fine asked waits request_is in
    let c' = updated_case result now c in
    let (none_yet, fine) = start_state-actions ext c' db in
    let (last, counted) = updated_case-retried result now c retry in
    (
      lapses,
      counted,
      last,
      elim (invoke-RunEnd ext (start_state ext c' db) s' (start_state-fresh ext c' db) fine run) [
        | stopped same decision ↦ absurd (no_action (sym acts_is ∙ same ∙ none_yet))
        | waiting q same decision ↦ absurd (no_action (sym acts_is ∙ same ∙ none_yet))
        | acted b grown decision lawful ↦
            let same : a ≡ b =
              singleton-injective (sym acts_is ∙ grown ∙ ap (λ l. l ++ b ∷ []) none_yet) in
            rw same (acted-rested ext c' db b now last (omega (arith, lapses)) lawful)
      ],
    )
  where
    no_action : ◌≡◌ {A = List RecoveryAction} (a ∷ []) [] → ⊥
    no_action e = cc
