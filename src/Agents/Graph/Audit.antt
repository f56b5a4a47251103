-- ===== src/Agents/Graph/Audit.antt =====
-- backend/agents/common.py, append_audit, through backend/agents/graph.py: the trail of a run.
use revenueguard_ai.Common.{
  ◌≡◌, refl, ◌⊎◌, inl, inr, sym, String, Bool, true, false, Option, none, some, List, [], ◌∷◌, ◌++◌,
  returned, raised, model_failed, >>=-eq-returned, ◌>>=◌, if◌then◌else◌, str_eq, ap, arith,
}
use revenueguard_ai.Models.{
  RecoveryState, AuditLogEntry, append_audit, StrategyDecision, DiagnosisResult,
  GatewayHealthSnapshot, RecoveryChannel, ActionType, action_of_strategy,
}
use revenueguard_ai.Guardrails.Check.{policy_check_node, verdict_update}
use revenueguard_ai.Guardrails.Policy.{check_all}
use revenueguard_ai.Guardrails.Approval.{request_approval_node}
use revenueguard_ai.Agents.External.{External}
use revenueguard_ai.Agents.Nodes.{
  bank_of, rail_of, health_update, enrich_with_ml, enrich_with_health,
  assign_experiment as assign_node, baseline_decide_node, agent_diagnose as diagnose_node,
}
use revenueguard_ai.Agents.Strategy.{
  deterministic_override, validated, agent_strategize as strategize_node, strategy_result,
}
use revenueguard_ai.Agents.Channel.{
  nudge, nudge_by, nudge_among, is_nudge, channel_of, select_channel as select_channel_node,
}
use revenueguard_ai.Agents.Execution.{execute_action as execute_node}
use revenueguard_ai.Agents.Graph.Decisions.{execute_action-returned, moved}

-- The action that an entry refers to: only the entry of the execution has one.
abbrev pub action_id_for : External → String → Option String
action_id_for ext step = if str_eq step "execute_action" then some ext.action_id else none

-- One node adds one entry to the trail, which names the step and the action that it executed.
pub record IsStep (ext : External) (step : String) (s t : RecoveryState) : Type 0 where
  pub case_id : t.case_id ≡ s.case_id
  pub entry : AuditLogEntry
  pub own : entry.case_id ≡ s.case_id
  pub named : entry.step ≡ step
  pub linked : entry.action_id ≡ action_id_for ext step
  pub trail : t.audit_trail ≡ s.audit_trail ++ entry ∷ []

-- A node that leaves the trail as it was.
pub record IsSilent (s t : RecoveryState) : Type 0 where
  pub case_id : t.case_id ≡ s.case_id
  pub trail : t.audit_trail ≡ s.audit_trail

append_audit-IsStep :
    (ext : External) (s t : RecoveryState) (agent step reasoning : String)
    (guardrails : List String)
    → str_eq step "execute_action" ≡ false
    → t.case_id ≡ s.case_id
    → t.audit_trail ≡ append_audit s agent step reasoning guardrails
    → IsStep ext step s t
unfolding append_audit
append_audit-IsStep ext s t agent step reasoning guardrails other c h = record {
  case_id = c;
  entry = _;
  own = refl;
  named = refl;
  linked = sym (ap (λ b. if b then some ext.action_id else none) other);
  trail = h;
}

module _ (ext : External) (s s' : RecoveryState) where
  pub ml-IsStep : enrich_with_ml ext s ≡ returned s' → IsStep ext "enrich_ml" s s'
  unfolding enrich_with_ml
  ml-IsStep h =
      append_audit-IsStep ext s s' "triage_model" "enrich_ml"
        "Recovery probability produced by the deterministic ML model." [] refl (ground arith)
        (ground arith)

  pub arm-IsStep : assign_node ext s ≡ returned s' → IsStep ext "assign_experiment" s s'
  unfolding assign_node
  arm-IsStep h =
      append_audit-IsStep ext s s' "experiment_router" "assign_experiment"
        "Stable MD5 bucket assignment." [] refl (ground arith) (ground arith)

  pub health-IsStep :
      returned (enrich_with_health ext s) ≡ returned s' → IsStep ext "enrich_health" s s'
  unfolding enrich_with_health
  health-IsStep h = moved (IsStep ext "enrich_health" s) h (
      go (bank_of s.case_data) (rail_of s.case_data)
        (ext.unified_health (bank_of s.case_data) (rail_of s.case_data)))
    where
      go :
          (bank rail : String) (u : String ⊎ GatewayHealthSnapshot)
          → IsStep ext "enrich_health" s (health_update s bank rail u)
      go bank rail (inl error) =
          append_audit-IsStep ext s _ "gateway_health" "enrich_health" _ [] refl refl refl
      go bank rail (inr found) =
          append_audit-IsStep ext s _ "gateway_health" "enrich_health" _ [] refl refl refl

  pub diagnose-IsStep : diagnose_node ext s ≡ returned s' → IsStep ext "agent_diagnose" s s'
  unfolding diagnose_node
  diagnose-IsStep h = go (ext.diagnose s) h
    where
      go :
          (o : Option DiagnosisResult)
          → (elim o [
            | none ↦ raised model_failed
            | some d ↦ returned (record s {
              diagnosis = some d;
              audit_trail = append_audit s "diagnosis_agent" "agent_diagnose" d.reasoning [];
            })
          ])
            ≡ returned s'
          → IsStep ext "agent_diagnose" s s'
      go none e = cc
      go (some d) e = moved (IsStep ext "agent_diagnose" s) e (
          append_audit-IsStep ext s _ "diagnosis_agent" "agent_diagnose" d.reasoning [] refl refl
            refl)

  planned :
      (d : StrategyDecision) (reason : String)
      → IsStep ext "agent_strategize" s (strategy_result ext s d reason)
  unfolding strategy_result
  planned d reason =
      append_audit-IsStep ext s _ "strategy_agent" "agent_strategize" _ [] refl refl refl

  pub strategize-IsStep : strategize_node ext s ≡ returned s' → IsStep ext "agent_strategize" s s'
  unfolding strategize_node
  strategize-IsStep h = go (deterministic_override ext s) h
    where
      go :
          (o : Option StrategyDecision)
          → (elim o [
            | some d ↦ returned (strategy_result ext s d "Deterministic override applied.")
            | none ↦ validated ext (ext.strategize s) >>= λ d.
                returned
                  (strategy_result ext s d "LLM selected an action within the fixed action set.")
          ])
            ≡ returned s'
          → IsStep ext "agent_strategize" s s'
      go (some d) e = moved (IsStep ext "agent_strategize" s) e (planned d _)
      go none e =
          let (d, _, e') =
            >>=-eq-returned (validated ext (ext.strategize s))
              (λ d.
                returned
                  (strategy_result ext s d "LLM selected an action within the fixed action set."))
              e in
          moved (IsStep ext "agent_strategize" s) e' (planned d _)

  -- The choice of a channel is logged when the strategy asks for one.
  abbrev pub IsChannelStep : RecoveryState → Type 0
  IsChannelStep t = IsSilent s t ⊎ IsStep ext "select_channel" s t

  by_channel :
      (d : StrategyDecision) (c : RecoveryChannel) (o : Option ActionType)
      → nudge_by s d c o ≡ returned s'
      → IsChannelStep s'
  by_channel d c none h = cc
  by_channel d c (some a) h =
      moved IsChannelStep h
        (inr (append_audit-IsStep ext s _ "channel_bandit" "select_channel" _ [] refl refl refl))

  among :
      (d : StrategyDecision) (l : List RecoveryChannel)
      → nudge_among ext s d l ≡ returned s'
      → IsChannelStep s'
  among d [] h =
      moved IsChannelStep h
        (inr (append_audit-IsStep ext s _ "channel_bandit" "select_channel" _ [] refl refl refl))
  among d (c ∷ cs) h = by_channel d _ _ h

  nudged : (o : Option StrategyDecision) → nudge ext s o ≡ returned s' → IsChannelStep s'
  nudged none h = moved IsChannelStep h (inl (record { case_id = refl; trail = refl }))
  nudged (some d) h = among d _ h

  pub channel-IsStep : select_channel_node ext s ≡ returned s' → IsChannelStep s'
  unfolding select_channel_node
  channel-IsStep h = go (is_nudge (action_of_strategy s.strategy)) h
    where
      go :
          (b : Bool)
          → (if b
              then nudge ext s s.strategy
              else returned (record s { selected_channel = channel_of s.strategy }))
            ≡ returned s'
          → IsChannelStep s'
      go true e = nudged s.strategy e
      go false e = moved IsChannelStep e (inl (record { case_id = refl; trail = refl }))

  pub baseline-IsStep :
      returned (baseline_decide_node s) ≡ returned s' → IsStep ext "baseline_decide" s s'
  unfolding baseline_decide_node
  baseline-IsStep h =
      moved (IsStep ext "baseline_decide" s) h
        (append_audit-IsStep ext s _ "baseline" "baseline_decide" _ [] refl refl refl)

  pub policy-IsStep :
      returned (policy_check_node ext.iso ext.settings ext.clock s) ≡ returned s'
      → IsStep ext "policy_check" s s'
  unfolding policy_check_node
  policy-IsStep h =
      moved (IsStep ext "policy_check" s) h
        (go (check_all ext.iso ext.settings ext.clock.cooldown_check ext.clock.quiet_check s))
    where
      go :
          (v : Bool × Option String)
          → IsStep ext "policy_check" s (verdict_update ext.iso ext.settings ext.clock s v)
      go (false, reason) =
          append_audit-IsStep ext s _ "policy_engine" "policy_check" _ _ refl refl refl
      go (true, reason) =
          append_audit-IsStep ext s _ "policy_engine" "policy_check" _ _ refl refl refl

  pub request-IsStep :
      returned (request_approval_node ext.settings ext.post_approval ext.approval_id ext.clock s)
        ≡ returned s'
      → IsStep ext "request_approval" s s'
  unfolding request_approval_node
  request-IsStep h =
      moved (IsStep ext "request_approval" s) h
        (append_audit-IsStep ext s _ "hitl_gate" "request_approval" _ _ refl refl refl)

  pub execute-IsStep : execute_node ext s ≡ returned s' → IsStep ext "execute_action" s s'
  execute-IsStep h =
      let (_, result, e) = execute_action-returned ext s h in
      moved (IsStep ext "execute_action" s) e (record {
        case_id = refl;
        entry = _;
        own = refl;
        named = refl;
        linked = refl;
        trail = refl;
      })
