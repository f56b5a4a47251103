-- ===== src/Agents/Graph/Runs.antt =====
-- Runs of the graph: they end, and a rule for what they keep.
use mathlib.Core.Path.{subst}
use revenueguard_ai.Common.{
  ℕ, zero, suc, ◌<◌, ◌≡◌, refl, inl, inr, true, false, Bool-cases, Option, some, Outcome, returned,
  raised, arith,
}
use revenueguard_ai.Models.{RecoveryState}
use revenueguard_ai.Agents.External.{External}
use revenueguard_ai.Agents.Graph.{
  Node, enrich_ml, enrich_health, assign_experiment, baseline_decide, agent_diagnose,
  agent_strategize, select_channel, policy_check, request_approval, execute_action, log_audit,
  finish, run_node, successor, is_finish, continue, run_from, invoke, graph_fuel,
}

-- The number of nodes that are still ahead at most.
abbrev rank : Node → ℕ
rank enrich_ml = 9
rank enrich_health = 8
rank assign_experiment = 7
rank agent_diagnose = 6
rank agent_strategize = 5
rank select_channel = 4
rank baseline_decide = 4
rank policy_check = 3
rank request_approval = 2
rank execute_action = 2
rank log_audit = 1
rank finish = 0

rank-successor :
    (n : Node) (s : RecoveryState) → is_finish n ≡ false → rank (successor n s) < rank n
unfolding successor
rank-successor finish s h = cc
rank-successor _ s h = ground arith

continue_total :
    (r : Outcome RecoveryState) (rest : RecoveryState → Option (Outcome RecoveryState))
    → ((s : RecoveryState) → (q : Outcome RecoveryState) × (rest s ≡ some q))
    → (q : Outcome RecoveryState) × (continue r rest ≡ some q)
continue_total (raised e) rest h = (raised e, refl)
continue_total (returned s) rest h = h s

run_from_total :
    (ext : External) (fuel : ℕ) (n : Node) (s : RecoveryState)
    → rank n < fuel
    → (r : Outcome RecoveryState) × (run_from ext fuel n s ≡ some r)
unfolding run_from
run_from_total ext zero n s h = absurd (omega arith)
run_from_total ext (suc fuel) n s h = elim (Bool-cases (is_finish n)) [
  | inl ends ↦ (returned s, rw (ends, run_from))
  | inr more ↦
      rw (more, run_from)
        (continue_total (run_node ext n s) _ (λ s'.
          run_from_total ext fuel (successor n s') s' (omega (arith, rank-successor n s' more))))
]

-- The fuel is enough: every run of the graph ends, in a state or in the exception of a node.
pub invoke_total :
    (ext : External) (s : RecoveryState) → (r : Outcome RecoveryState) × (invoke ext s ≡ some r)
unfolding invoke
invoke_total ext s = run_from_total ext graph_fuel enrich_ml s (omega arith)

module _ (ext : External) (P : Node → RecoveryState → Type 0)
    (keep : (n : Node) (s s' : RecoveryState)
      → P n s
      → run_node ext n s ≡ returned s'
      → P (successor n s') s') where
  at_finish : (n : Node) (s : RecoveryState) → is_finish n ≡ true → P n s → P finish s
  at_finish finish s h p = p
  at_finish enrich_ml s h p = cc
  at_finish _ s h p = cc

  continue-keeps :
      (n : Node) (s s' : RecoveryState) (rest : RecoveryState → Option (Outcome RecoveryState))
      → P n s
      → ((t : RecoveryState) → P (successor n t) t → rest t ≡ some (returned s') → P finish s')
      → continue (run_node ext n s) rest ≡ some (returned s')
      → P finish s'
  continue-keeps n s s' rest p h e = go (run_node ext n s) refl e
    where
      go :
          (r : Outcome RecoveryState)
          → run_node ext n s ≡ r
          → continue r rest ≡ some (returned s')
          → P finish s'
      go (raised x) _ e' = cc
      go (returned t) found e' = h t (keep n s t p found) e'

  run_from-keeps :
      (fuel : ℕ) (n : Node) (s s' : RecoveryState)
      → P n s
      → run_from ext fuel n s ≡ some (returned s')
      → P finish s'
  unfolding run_from
  run_from-keeps zero n s s' p e = cc
  run_from-keeps (suc fuel) n s s' p e = elim (Bool-cases (is_finish n)) [
    | inl ends ↦
        let same : s ≡ s' = cc (rw (ends, run_from) at e) in
        subst (P finish) same (at_finish n s ends p)
    | inr more ↦
        continue-keeps n s s' _ p (λ t. run_from-keeps fuel (successor n t) t s')
          (rw (more, run_from) at e)
  ]

  -- What every node carries over to the next one holds at the end of a run that returns.
  pub invoke-keeps :
      (s s' : RecoveryState) → P enrich_ml s → invoke ext s ≡ some (returned s') → P finish s'
  unfolding invoke
  invoke-keeps s s' p e = run_from-keeps graph_fuel enrich_ml s s' p e
