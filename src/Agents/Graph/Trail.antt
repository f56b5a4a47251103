-- ===== src/Agents/Graph/Trail.antt =====
-- The audit trail of a run of the graph, from its start to its end.
use mathlib.Core.Path.{subst}
use mathlib.Core.List.{map-append}
use revenueguard_ai.Common.{
  ◌≡◌, refl, inl, inr, ap, sym, ◌∙◌, Option, none, some, List, [], ◌∷◌, ◌++◌, returned, All,
  All-snoc, append_assoc, append-nil, map, String,
}
use revenueguard_ai.Models.{RecoveryState, AuditLogEntry, append_audit}
use revenueguard_ai.Agents.External.{External}
use revenueguard_ai.Agents.Execution.{log_audit as log_node}
use revenueguard_ai.Agents.Graph.{
  Node, enrich_ml, enrich_health, assign_experiment, baseline_decide, agent_diagnose,
  agent_strategize, select_channel, policy_check, request_approval, execute_action, log_audit,
  finish, run_node, successor, invoke,
}
use revenueguard_ai.Agents.Graph.Decisions.{moved}
use revenueguard_ai.Agents.Graph.Runs.{invoke-keeps}
use revenueguard_ai.Models.{ExperimentArm, control, treatment, is_stop}
use revenueguard_ai.Guardrails.Approval.{action_or_stop}
use revenueguard_ai.Agents.Graph.{route_experiment, route_policy}
use revenueguard_ai.Agents.Graph.Decisions.{
  route_policy-held, route_policy-halts, route_policy-goes,
}
use revenueguard_ai.Common.{Bool-cases}
use revenueguard_ai.Agents.Graph.Audit.{
  action_id_for, IsStep, IsSilent, IsChannelStep, ml-IsStep, arm-IsStep, health-IsStep,
  diagnose-IsStep, strategize-IsStep, channel-IsStep, baseline-IsStep, policy-IsStep,
  request-IsStep, execute-IsStep,
}

-- The steps that have been logged when a node is to run: those of the nodes of a path to it, in its
-- order. Only `select_channel` may leave its step out.
pub data Steps : Node → List String → Type 0 where
  start : Steps enrich_ml []
  scored : {l : List String} → Steps enrich_ml l → Steps enrich_health (l ++ "enrich_ml" ∷ [])
  checked :
      {l : List String}
      → Steps enrich_health l
      → Steps assign_experiment (l ++ "enrich_health" ∷ [])
  in_control :
      {l : List String}
      → Steps assign_experiment l
      → Steps baseline_decide (l ++ "assign_experiment" ∷ [])
  in_treatment :
      {l : List String}
      → Steps assign_experiment l
      → Steps agent_diagnose (l ++ "assign_experiment" ∷ [])
  by_rule :
      {l : List String} → Steps baseline_decide l → Steps policy_check (l ++ "baseline_decide" ∷ [])
  diagnosed :
      {l : List String}
      → Steps agent_diagnose l
      → Steps agent_strategize (l ++ "agent_diagnose" ∷ [])
  planned :
      {l : List String}
      → Steps agent_strategize l
      → Steps select_channel (l ++ "agent_strategize" ∷ [])
  with_channel :
      {l : List String} → Steps select_channel l → Steps policy_check (l ++ "select_channel" ∷ [])
  without_channel : {l : List String} → Steps select_channel l → Steps policy_check l
  held :
      {l : List String} → Steps policy_check l → Steps request_approval (l ++ "policy_check" ∷ [])
  cleared :
      {l : List String} → Steps policy_check l → Steps execute_action (l ++ "policy_check" ∷ [])
  halted : {l : List String} → Steps policy_check l → Steps log_audit (l ++ "policy_check" ∷ [])
  asked :
      {l : List String} → Steps request_approval l → Steps log_audit (l ++ "request_approval" ∷ [])
  executed :
      {l : List String} → Steps execute_action l → Steps log_audit (l ++ "execute_action" ∷ [])
  closed : {l : List String} → Steps log_audit l → Steps finish (l ++ "log_audit" ∷ [])

-- The trail of `t` is that of `s` with more entries at its end: all for the case of `s`, each with the
-- action that its step has executed or with none, and with these steps.
pub record Extends (ext : External) (steps : List String) (s t : RecoveryState) : Type 0 where
  pub case_id : t.case_id ≡ s.case_id
  pub entries : List AuditLogEntry
  pub own : All (λ e. e.case_id ≡ s.case_id) entries
  pub linked : All (λ e. e.action_id ≡ action_id_for ext e.step) entries
  pub named : map (λ e. e.step) entries ≡ steps
  pub trail : t.audit_trail ≡ s.audit_trail ++ entries

Extends-refl : (ext : External) (s : RecoveryState) → Extends ext [] s s
Extends-refl ext s = record {
  case_id = refl;
  entries = [];
  own = tt;
  linked = tt;
  named = refl;
  trail = sym (append-nil s.audit_trail);
}

Extends-step :
    (ext : External) (step : String) (steps : List String) (s t u : RecoveryState)
    → Extends ext steps s t
    → IsStep ext step t u
    → Extends ext (steps ++ step ∷ []) s u
Extends-step ext step steps s t u p q = record {
  case_id = q.case_id ∙ p.case_id;
  entries = p.entries ++ q.entry ∷ [];
  own = All-snoc _ p.entries q.entry p.own (q.own ∙ p.case_id);
  linked = All-snoc _ p.entries q.entry p.linked (q.linked ∙ ap (action_id_for ext) (sym q.named));
  named =
      map-append (λ e. e.step) p.entries (q.entry ∷ [])
      ∙ ap (λ l. l ++ q.entry.step ∷ []) p.named
      ∙ ap (λ e. steps ++ e ∷ []) q.named;
  trail =
      q.trail
      ∙ ap (λ l. l ++ q.entry ∷ []) p.trail
      ∙ append_assoc s.audit_trail p.entries (q.entry ∷ []);
}

Extends-silent :
    (ext : External) (steps : List String) (s t u : RecoveryState)
    → Extends ext steps s t
    → IsSilent t u
    → Extends ext steps s u
Extends-silent ext steps s t u p q = record {
  case_id = q.case_id ∙ p.case_id;
  entries = p.entries;
  own = p.own;
  linked = p.linked;
  named = p.named;
  trail = q.trail ∙ p.trail;
}

log_node-IsStep : (ext : External) (t : RecoveryState) → IsStep ext "log_audit" t (log_node t)
unfolding log_node append_audit
log_node-IsStep ext t = record {
  case_id = refl;
  entry = _;
  own = refl;
  named = refl;
  linked = refl;
  trail = refl;
}

-- What the trail says at the node that runs next.
abbrev pub Logged : External → RecoveryState → Node → RecoveryState → Type 0
Logged ext s0 n s = (steps : List String) × Steps n steps × Extends ext steps s0 s

module _ (ext : External) (s0 : RecoveryState) where
  after :
      {n m : Node} (step : String) (t u : RecoveryState)
      → ((l : List String) → Steps n l → Steps m (l ++ step ∷ []))
      → Logged ext s0 n t
      → IsStep ext step t u
      → Logged ext s0 m u
  after step t u edge (steps, path, p) q =
      (steps ++ step ∷ [], edge steps path, Extends-step ext step steps s0 t u p q)

  routed :
      (s t : RecoveryState)
      → Logged ext s0 policy_check s
      → IsStep ext "policy_check" s t
      → Logged ext s0 (route_policy t) t
  routed s t p q = elim (Bool-cases t.needs_approval) [
    | inl needs ↦
        subst (λ n. Logged ext s0 n t) (sym (route_policy-held t needs))
          (after "policy_check" s t (λ l path. held path) p q)
    | inr free ↦ elim (Bool-cases (is_stop (action_or_stop t.strategy))) [
      | inl halts ↦
          subst (λ n. Logged ext s0 n t) (sym (route_policy-halts t free halts))
            (after "policy_check" s t (λ l path. halted path) p q)
      | inr goes ↦
          subst (λ n. Logged ext s0 n t) (sym (route_policy-goes t free goes))
            (after "policy_check" s t (λ l path. cleared path) p q)
    ]
  ]

  armed :
      (arm : Option ExperimentArm) (s t : RecoveryState)
      → Logged ext s0 assign_experiment s
      → IsStep ext "assign_experiment" s t
      → Logged ext s0 (route_experiment arm) t
  unfolding route_experiment
  armed none s t p q = after "assign_experiment" s t (λ l path. in_treatment path) p q
  armed (some control) s t p q = after "assign_experiment" s t (λ l path. in_control path) p q
  armed (some treatment) s t p q = after "assign_experiment" s t (λ l path. in_treatment path) p q

  channelled :
      (s t : RecoveryState)
      → Logged ext s0 select_channel s
      → IsChannelStep ext s t t
      → Logged ext s0 policy_check t
  channelled s t (steps, path, p) (inl q) =
      (steps, without_channel path, Extends-silent ext steps s0 s t p q)
  channelled s t p (inr q) = after "select_channel" s t (λ l path. with_channel path) p q

  Logged-keep :
      (n : Node) (s s' : RecoveryState)
      → Logged ext s0 n s
      → run_node ext n s ≡ returned s'
      → Logged ext s0 (successor n s') s'
  unfolding run_node successor
  Logged-keep enrich_ml s s' p h =
      after "enrich_ml" s s' (λ l path. scored path) p (ml-IsStep ext s s' h)
  Logged-keep enrich_health s s' p h =
      after "enrich_health" s s' (λ l path. checked path) p (health-IsStep ext s s' h)
  Logged-keep assign_experiment s s' p h = armed s'.experiment_arm s s' p (arm-IsStep ext s s' h)
  Logged-keep baseline_decide s s' p h =
      after "baseline_decide" s s' (λ l path. by_rule path) p (baseline-IsStep ext s s' h)
  Logged-keep agent_diagnose s s' p h =
      after "agent_diagnose" s s' (λ l path. diagnosed path) p (diagnose-IsStep ext s s' h)
  Logged-keep agent_strategize s s' p h =
      after "agent_strategize" s s' (λ l path. planned path) p (strategize-IsStep ext s s' h)
  Logged-keep select_channel s s' p h = channelled s s' p (channel-IsStep ext s s' h)
  Logged-keep policy_check s s' p h = routed s s' p (policy-IsStep ext s s' h)
  Logged-keep request_approval s s' p h =
      after "request_approval" s s' (λ l path. asked path) p (request-IsStep ext s s' h)
  Logged-keep execute_action s s' p h =
      after "execute_action" s s' (λ l path. executed path) p (execute-IsStep ext s s' h)
  Logged-keep log_audit s s' p h =
      moved (Logged ext s0 finish) h
        (after "log_audit" s (log_node s) (λ l path. closed path) p (log_node-IsStep ext s))
  Logged-keep finish s s' p h = moved (Logged ext s0 finish) h p

-- The trail of a run that has ended.
abbrev pub IsClosed : External → RecoveryState → RecoveryState → Type 0
IsClosed ext s t = Logged ext s finish t

-- The audit trail is append-only and complete: a run that returns keeps every entry that was there, in
-- its place, and adds entries for its own case only, whose steps are those of the nodes on a path of the
-- graph from its start to its end, each once and in order, where only the choice of a channel may be left
-- out. The entry of `execute_action` has the id that the run gives to its action, and no other entry has
-- the id of an action.
pub invoke-IsClosed :
    (ext : External) (s s' : RecoveryState) → invoke ext s ≡ some (returned s') → IsClosed ext s s'
invoke-IsClosed ext s s' e =
    invoke-keeps ext (Logged ext s) (Logged-keep ext s) s s' ([], start, Extends-refl ext s) e
