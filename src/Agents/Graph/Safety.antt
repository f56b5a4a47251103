-- ===== src/Agents/Graph/Safety.antt =====
-- What a run of the graph of `agents/graph.py` may do to a case.
use revenueguard_ai.Common.{◌≡◌, ◌≢◌, ◌⊎◌, inl, inr, true, Option, none, some, returned, truthy}
use revenueguard_ai.Common.Int.{pos, ◌≤ℤ◌}
use revenueguard_ai.Models.{
  ExperimentArm, control, treatment, RecoveryState, pending, customer_from_case, retry_count_of,
}
use revenueguard_ai.Agents.External.{External}
use revenueguard_ai.Agents.Graph.{
  Node, enrich_ml, enrich_health, assign_experiment, baseline_decide, agent_diagnose,
  agent_strategize, select_channel, policy_check, request_approval, execute_action as execute_node,
  log_audit as log_node, finish, run_node, successor, route_policy, route_experiment, invoke,
}
use revenueguard_ai.Agents.Graph.Runs.{invoke-keeps}
use revenueguard_ai.Agents.Graph.Frame.{
  SameCase, SameCase-refl, SameCase-trans, enrich_with_ml-SameCase, enrich_with_health-SameCase,
  assign_experiment-SameCase, baseline_decide_node-SameCase, agent_diagnose-SameCase,
  agent_strategize-SameCase, select_channel-SameCase,
}
use revenueguard_ai.Agents.Graph.Ends.{RunEnd, stopped, waiting, acted, IsDecided, Stage}
use revenueguard_ai.Agents.Graph.Decisions.{
  moved, baseline-planned, strategize-planned, select-planned,
}
use revenueguard_ai.Agents.Graph.Stages.{
  execute-IsDecided, request-IsDecided, log-RunEnd, policy-Stage,
}

module _ (ext : External) (s0 : RecoveryState) (fresh : s0.approval_status ≢ some pending)
    (no_error : s0.error ≡ none) where
  Stage-keep :
      (n : Node) (s s' : RecoveryState)
      → Stage ext s0 n s
      → run_node ext n s ≡ returned s'
      → Stage ext s0 (successor n s') s'
  unfolding run_node successor
  Stage-keep enrich_ml s s' p h = SameCase-trans p (enrich_with_ml-SameCase ext s h)
  Stage-keep enrich_health s s' p h =
      moved (SameCase s0) h (SameCase-trans p (enrich_with_health-SameCase ext s))
  Stage-keep assign_experiment s s' p h =
      routed s'.experiment_arm (SameCase-trans p (assign_experiment-SameCase ext s h))
    where
      routed :
          (arm : Option ExperimentArm) → SameCase s0 s' → Stage ext s0 (route_experiment arm) s'
      routed none q = q
      routed (some control) q = q
      routed (some treatment) q = q
  Stage-keep baseline_decide s s' p h =
      moved (λ t. SameCase s0 t × (t.strategy ≢ none)) h
        (SameCase-trans p (baseline_decide_node-SameCase ext s), baseline-planned s)
  Stage-keep agent_diagnose s s' p h = SameCase-trans p (agent_diagnose-SameCase ext s h)
  Stage-keep agent_strategize s s' p h =
      (SameCase-trans p (agent_strategize-SameCase ext s h), strategize-planned ext s h)
  Stage-keep select_channel s s' p h =
      (SameCase-trans p.0 (select_channel-SameCase ext s h), select-planned ext s p.1 h)
  Stage-keep policy_check s s' p h =
      moved (λ t. Stage ext s0 (route_policy t) t) h (policy-Stage ext s0 fresh no_error s p.0 p.1)
  Stage-keep request_approval s s' p h =
      moved (IsDecided ext s0) h (request-IsDecided ext s0 fresh no_error s p)
  Stage-keep execute_node s s' p h = execute-IsDecided ext s0 fresh no_error s s' p h
  Stage-keep log_node s s' p h = moved (RunEnd ext s0) h (log-RunEnd ext s0 fresh no_error s p)
  Stage-keep finish s s' p h = moved (RunEnd ext s0) h p

-- Every run of the graph that returns ends in one of three ways. It stopped: nothing was executed
-- and the decision is `stop`. It waits: nothing was executed, and a two-hour request was made for
-- an action that every rule permits and that is above the threshold with no valid approval when
-- checked. Or it acted: exactly one action was executed, which is no `stop`, which every rule
-- permits for this case at the times when they were checked, and for which, above the threshold, an
-- approval was valid when it was executed. This holds whatever the language model, the gateway's
-- health, the bandit and the experiment answer, for a run that starts with no pending approval and
-- no error.
pub invoke-RunEnd :
    (ext : External) (s s' : RecoveryState)
    → s.approval_status ≢ some pending
    → s.error ≡ none
    → invoke ext s ≡ some (returned s')
    → RunEnd ext s s'
invoke-RunEnd ext s s' fresh no_error e =
    invoke-keeps ext (Stage ext s) (Stage-keep ext s fresh no_error) s s' (SameCase-refl s) e

-- A customer who has opted out, or a case at its limit of retries, is left alone: whatever the other
-- parts answer, a run that returns executes nothing and decides `stop`.
pub invoke-barred :
    (ext : External) (s s' : RecoveryState)
    → s.approval_status ≢ some pending
    → s.error ≡ none
    → (truthy (customer_from_case s.case_data).opted_out ≡ true)
      ⊎ (pos ext.settings.max_retry_attempts ≤ℤ retry_count_of s.case_data)
    → invoke ext s ≡ some (returned s')
    → (s'.actions ≡ s.actions) × (s'.final_decision ≡ some "stop")
invoke-barred ext s s' fresh no_error barred e = elim (invoke-RunEnd ext s s' fresh no_error e) [
  | stopped same decision ↦ (same, decision)
  | waiting r same decision ↦ elim barred [
    | inl out ↦ absurd (r.acts (cc (r.permitted.reachable out)))
    | inr many ↦ absurd (r.acts (cc (r.permitted.below_limit many)))
  ]
  | acted a grown decision lawful ↦ elim barred [
    | inl out ↦ absurd (lawful.acts (cc (lawful.permitted.reachable out)))
    | inr many ↦ absurd (lawful.acts (cc (lawful.permitted.below_limit many)))
  ]
]
