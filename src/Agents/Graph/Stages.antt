-- ===== src/Agents/Graph/Stages.antt =====
-- The nodes that decide, execute and record keep what the ends of a run need.
use revenueguard_ai.Common.{
  ◌≡◌, refl, ◌≢◌, inl, inr, true, false, Bool-cases, none, some, returned, [], ◌∷◌, ◌++◌, ◌∙◌, ap,
  sym,
}
use mathlib.Core.Path.{subst}
use revenueguard_ai.Models.{
  stop, action_value, RecoveryState, pending, amount_of, action_of_strategy, is_stop,
}
use revenueguard_ai.Guardrails.Policy.Laws.{IsPermitted, check_all_iff}
use revenueguard_ai.Guardrails.Check.{policy_check_node}
use revenueguard_ai.Guardrails.Check.Laws.{policy_check_node-cases}
use revenueguard_ai.Guardrails.Approval.{action_or_stop, approval_request, request_approval_node}
use revenueguard_ai.Agents.External.{External}
use revenueguard_ai.Agents.Execution.{execute_action, recovery_action, log_audit}
use revenueguard_ai.Agents.Graph.{route_policy}
use revenueguard_ai.Agents.Graph.Frame.{SameCase, SameCase-trans, policy_check_node-SameCase}
use revenueguard_ai.Agents.Graph.Ends.{
  RunEnd, stopped, waiting, acted, IsCleared, IsHeld, IsDecided, stops_here, waits, acts_once,
  Stage,
}
use revenueguard_ai.Agents.Graph.Decisions.{
  moved, IsHeld_of_needs, final_decision-plain, final_decision-pending, is_stop_iff,
  route_policy-held, route_policy-halts, route_policy-goes, execute_action-returned,
  action_of_strategy-planned, IsLawful_of_cleared,
}

module _ (ext : External) (s0 : RecoveryState) (fresh : s0.approval_status ≢ some pending)
    (no_error : s0.error ≡ none) where
  pub execute-IsDecided :
      (s s' : RecoveryState)
      → IsCleared ext s0 s
      → execute_action ext s ≡ returned s'
      → IsDecided ext s0 s'
  unfolding recovery_action
  execute-IsDecided s s' c h =
      let (free, result, e) = execute_action-returned ext s h in
      let a = recovery_action ext s result in
      moved (IsDecided ext s0) e (
        acts_once a (ap (λ l. l ++ a ∷ []) c.same.actions) refl
          (IsLawful_of_cleared ext s0 s result c free) (λ p. fresh (sym c.same.approval_status ∙ p))
          (c.same.error ∙ no_error))

  pub request-IsDecided :
      (s : RecoveryState)
      → IsHeld ext s0 s
      → IsDecided ext s0
          (request_approval_node ext.settings ext.post_approval ext.approval_id ext.clock s)
  unfolding request_approval_node approval_request
  request-IsDecided s h =
      waits
        (record {
          status = refl;
          request = approval_request ext.approval_id ext.clock.approval_request s;
          record_is = refl;
          acts = h.acts;
          amount = ap amount_of h.same.case_data;
          lapses = refl;
          permitted = h.permitted;
          high_value = h.high_value;
          unapproved = h.unapproved;
        })
        h.same.actions

  pub log-RunEnd : (s : RecoveryState) → IsDecided ext s0 s → RunEnd ext s0 (log_audit s)
  unfolding log_audit action_value
  log-RunEnd s (stops_here a b c d) =
      stopped a (ap some (final_decision-plain s c d ∙ ap action_value b))
  log-RunEnd s (waits r a) =
      waiting
        (record {
          status = r.status;
          request = r.request;
          record_is = r.record_is;
          acts = r.acts;
          amount = r.amount;
          lapses = r.lapses;
          permitted = r.permitted;
          high_value = r.high_value;
          unapproved = r.unapproved;
        })
        a (ap some (final_decision-pending s r.status))
  log-RunEnd s (acts_once a b c d e f) =
      acted a b (ap some (final_decision-plain s e f ∙ ap action_value c)) d

  pub route-Stage :
      (t : RecoveryState)
      → SameCase s0 t
      → (t.needs_approval ≡ true → IsHeld ext s0 t)
      → (t.needs_approval ≡ false → action_or_stop t.strategy ≢ stop → IsCleared ext s0 t)
      → Stage ext s0 (route_policy t) t
  unfolding route_policy
  route-Stage t same held cleared = elim (Bool-cases t.needs_approval) [
    | inl needs ↦ subst (λ n. Stage ext s0 n t) (sym (route_policy-held t needs)) (held needs)
    | inr free ↦ elim (Bool-cases (is_stop (action_or_stop t.strategy))) [
      | inl halts ↦
          subst (λ n. Stage ext s0 n t) (sym (route_policy-halts t free halts))
            (stops_here same.actions (is_stop_iff _ halts)
              (λ h. fresh (sym same.approval_status ∙ h)) (same.error ∙ no_error))
      | inr goes ↦
          subst (λ n. Stage ext s0 n t) (sym (route_policy-goes t free goes))
            (cleared free (λ h. cc (ap is_stop h)))
    ]
  ]

  pub policy-Stage :
      (s : RecoveryState)
      → SameCase s0 s
      → s.strategy ≢ none
      → let s' = policy_check_node ext.iso ext.settings ext.clock s in
        Stage ext s0 (route_policy s') s'
  policy-Stage s same planned =
      let s' = policy_check_node ext.iso ext.settings ext.clock s in
      let same' = SameCase-trans same (policy_check_node-SameCase ext s) in
      elim (policy_check_node-cases ext.iso ext.settings ext.clock s) [
        | inl (free, halts) ↦ route-Stage s' same' (λ needs. cc) (λ _ goes. absurd (goes halts))
        | inr (needs_is, plan_is, allowed) ↦
            let permitted =
              subst
                (λ c.
                  IsPermitted ext.iso ext.settings ext.clock.cooldown_check ext.clock.quiet_check c
                    (action_of_strategy s.strategy))
                same.case_data
                ((check_all_iff ext.iso ext.settings ext.clock.cooldown_check ext.clock.quiet_check
                    s).0
                  allowed) in
            route-Stage s' same'
              (λ needs.
                let (goes, high, unapproved) =
                  IsHeld_of_needs ext s0 s same planned (sym needs_is ∙ needs) in
                record {
                  same = same';
                  acts = rw plan_is goes;
                  permitted = rw (plan_is, ← action_of_strategy-planned s.strategy goes) permitted;
                  high_value = high;
                  unapproved = unapproved;
                })
              (λ _ goes. record { same = same'; permitted = rw plan_is permitted; acts = goes })
      ]
