-- ===== src/Agents/Nodes.antt =====
-- The other nodes: backend/agents/triage_node.py, health_node.py, experiment_node.py and
-- diagnosis_node.py.
use Prim.Native.String.{◌++◌}
use revenueguard_ai.Common.{
  String, none, some, [], Entry, value, ◌⊎◌, inl, inr, Outcome, returned, raised, ◌>>=◌,
  scorer_failed, model_failed,
}
use revenueguard_ai.Models.{
  closed, GatewayHealthSnapshot, RecoveryState, CaseData, metadata_from_case, retry_count_of,
  append_audit,
}
use revenueguard_ai.Experiments.Assignment.{assign_experiment_arm}
use revenueguard_ai.Experiments.Baseline.{baseline_decide}
use revenueguard_ai.Agents.External.{External}

unfoldable pub enrich_with_ml : External → RecoveryState → Outcome RecoveryState
enrich_with_ml ext state = elim (ext.score state.case_data state.gateway_health) [
  | none ↦ raised scorer_failed
  | some triage ↦ returned (record state {
    triage = some triage;
    audit_trail =
        append_audit state "triage_model" "enrich_ml"
          "Recovery probability produced by the deterministic ML model." [];
  })
]

-- `a or b`, of the text under a key.
abbrev text_or : Entry String → String → String
text_or (value String.[]) d = d
text_or (value s) d = s
text_or _ d = d

unfoldable pub bank_of : CaseData → String
bank_of c = text_or (metadata_from_case c).bank_name (text_or c.bank_name "unknown")

unfoldable pub rail_of : CaseData → String
rail_of c = text_or (metadata_from_case c).payment_method (text_or c.payment_method "unknown")

-- The snapshot that stands in for an exception.
unfoldable pub healthy_default : String → String → GatewayHealthSnapshot
healthy_default bank rail = record {
  bank = bank;
  rail = rail;
  state = closed;
  success_rate = 950_000;
  technical_failure_rate = 0;
  business_decline_rate = 0;
  timeout_rate = 0;
  baseline_success_rate = 950_000;
  sample_size = 0;
  window_minutes = 15;
  recommended_action = "RETRY_NOW";
  retry_after_seconds = 0;
  confidence = "LOW";
}

abbrev pub health_update :
    RecoveryState → String → String → String ⊎ GatewayHealthSnapshot → RecoveryState
health_update state bank rail (inl error) = record state {
  gateway_health = some (healthy_default bank rail);
  audit_trail =
      append_audit state "gateway_health" "enrich_health"
        ("Gateway health unavailable (" ++ (error ++ "); healthy default used.")) [];
}
health_update state bank rail (inr health) = record state {
  gateway_health = some health;
  audit_trail =
      append_audit state "gateway_health" "enrich_health"
        "Combined internal sliding-window and processor downtime signals." [];
}

unfoldable pub enrich_with_health : External → RecoveryState → RecoveryState
enrich_with_health ext state =
    let bank = bank_of state.case_data in
    let rail = rail_of state.case_data in
    health_update state bank rail (ext.unified_health bank rail)

unfoldable pub assign_experiment : External → RecoveryState → Outcome RecoveryState
assign_experiment ext state =
    assign_experiment_arm ext.md5 state.case_id "recovery_agent_v1"
      ext.settings.experiment_variant_pct
    >>= λ arm. returned (record state {
      experiment_arm = some arm;
      audit_trail =
          append_audit state "experiment_router" "assign_experiment" "Stable MD5 bucket assignment."
            [];
    })

unfoldable pub baseline_decide_node : RecoveryState → RecoveryState
baseline_decide_node state =
    let d = baseline_decide (retry_count_of state.case_data) in
    record state {
      strategy = some d;
      audit_trail = append_audit state "baseline" "baseline_decide" d.reasoning [];
    }

unfoldable pub agent_diagnose : External → RecoveryState → Outcome RecoveryState
agent_diagnose ext state = elim (ext.diagnose state) [
  | none ↦ raised model_failed
  | some d ↦ returned (record state {
    diagnosis = some d;
    audit_trail = append_audit state "diagnosis_agent" "agent_diagnose" d.reasoning [];
  })
]
