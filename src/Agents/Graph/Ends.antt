-- ===== src/Agents/Graph/Ends.antt =====
-- The ends of a run of the graph of `agents/graph.py`, and what holds at each node on the way to them.
use revenueguard_ai.Common.{◌+◌, ◌*◌, ◌≡◌, ◌≢◌, true, false, none, some, [], ◌∷◌, ◌++◌}
use revenueguard_ai.Common.Int.{pos, ◌<ℤ◌}
use revenueguard_ai.Models.{
  ActionType, stop, action_value, RecoveryState, RecoveryAction, pending, ApprovalRecord, requested,
  amount_of, action_of_strategy,
}
use revenueguard_ai.Models.Time.{hour_us}
use revenueguard_ai.Guardrails.Policy.{has_valid_approval}
use revenueguard_ai.Guardrails.Policy.Laws.{IsPermitted}
use revenueguard_ai.Guardrails.Approval.{action_or_stop}
use revenueguard_ai.Agents.External.{External}
use revenueguard_ai.Agents.Graph.{
  Node, select_channel, policy_check, request_approval, execute_action as execute_node,
  log_audit as log_node, finish,
}
use revenueguard_ai.Agents.Graph.Frame.{SameCase}

-- An action that a run may take on a case: all rules permit it, it is no `stop`, and above the
-- threshold an approval is valid at the moment of the action.
pub record IsLawful (ext : External) (s : RecoveryState) (action : ActionType) : Type 0 where
  pub permitted :
      IsPermitted ext.iso ext.settings ext.clock.cooldown_check ext.clock.quiet_check s.case_data
        (some action)
  pub acts : action ≢ stop
  pub approved :
      pos ext.settings.high_value_threshold <ℤ amount_of s.case_data
      → has_valid_approval ext.iso ext.clock.assertion s ≡ true

-- A request for approval of a lawful action that only lacks it, made by this run, which lapses two
-- hours later.
pub record IsRequest (ext : External) (s0 s : RecoveryState) : Type 0 where
  pub status : s.approval_status ≡ some pending
  pub request : ApprovalRecord
  pub record_is : s.approval_record ≡ some (requested request)
  pub acts : request.requested_action ≢ stop
  pub amount : request.amount_paise ≡ amount_of s0.case_data
  pub lapses : request.expires_at ≡ request.requested_at + 2 * hour_us
  pub permitted :
      IsPermitted ext.iso ext.settings ext.clock.cooldown_check ext.clock.quiet_check s0.case_data
        (some request.requested_action)
  pub high_value : pos ext.settings.high_value_threshold <ℤ amount_of s0.case_data
  pub unapproved : has_valid_approval ext.iso ext.clock.approval_check s0 ≡ false

-- The ends of a run from the state `s0`.
pub data RunEnd (ext : External) (s0 s : RecoveryState) : Type 0 where
  stopped : s.actions ≡ s0.actions → s.final_decision ≡ some "stop" → RunEnd ext s0 s
  waiting :
      IsRequest ext s0 s
      → s.actions ≡ s0.actions
      → s.final_decision ≡ some "approval_pending"
      → RunEnd ext s0 s
  acted :
      (a : RecoveryAction)
      → s.actions ≡ s0.actions ++ a ∷ []
      → s.final_decision ≡ some (action_value a.action_type)
      → IsLawful ext s0 a.action_type
      → RunEnd ext s0 s

-- What holds on the way to those ends, at the node that runs next.
pub record IsCleared (ext : External) (s0 s : RecoveryState) : Type 0 where
  pub same : SameCase s0 s
  pub permitted :
      IsPermitted ext.iso ext.settings ext.clock.cooldown_check ext.clock.quiet_check s0.case_data
        (action_of_strategy s.strategy)
  pub acts : action_or_stop s.strategy ≢ stop

pub record IsHeld (ext : External) (s0 s : RecoveryState) : Type 0 where
  pub same : SameCase s0 s
  pub acts : action_or_stop s.strategy ≢ stop
  pub permitted :
      IsPermitted ext.iso ext.settings ext.clock.cooldown_check ext.clock.quiet_check s0.case_data
        (some (action_or_stop s.strategy))
  pub high_value : pos ext.settings.high_value_threshold <ℤ amount_of s0.case_data
  pub unapproved : has_valid_approval ext.iso ext.clock.approval_check s0 ≡ false

pub data IsDecided (ext : External) (s0 s : RecoveryState) : Type 0 where
  stops_here :
      s.actions ≡ s0.actions
      → action_or_stop s.strategy ≡ stop
      → s.approval_status ≢ some pending
      → s.error ≡ none
      → IsDecided ext s0 s
  waits : IsRequest ext s0 s → s.actions ≡ s0.actions → IsDecided ext s0 s
  acts_once :
      (a : RecoveryAction)
      → s.actions ≡ s0.actions ++ a ∷ []
      → action_or_stop s.strategy ≡ a.action_type
      → IsLawful ext s0 a.action_type
      → s.approval_status ≢ some pending
      → s.error ≡ none
      → IsDecided ext s0 s

abbrev pub Stage : External → RecoveryState → Node → RecoveryState → Type 0
Stage ext s0 request_approval s = IsHeld ext s0 s
Stage ext s0 execute_node s = IsCleared ext s0 s
Stage ext s0 log_node s = IsDecided ext s0 s
Stage ext s0 finish s = RunEnd ext s0 s
Stage ext s0 select_channel s = SameCase s0 s × (s.strategy ≢ none)
Stage ext s0 policy_check s = SameCase s0 s × (s.strategy ≢ none)
Stage ext s0 _ s = SameCase s0 s
