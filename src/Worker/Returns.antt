-- ===== src/Worker/Returns.antt =====
-- backend/worker.py: what process_case keeps of a run that returns.
use mathlib.Core.Path.{subst}
use revenueguard_ai.Common.{
  ℕ, ◌≡◌, ◌≢◌, ap, sym, ◌∙◌, String, some, ◌++◌, map, true, false, integrity_error, returned,
  Failure, arith,
}
use revenueguard_ai.Models.{RecoveryState}
use revenueguard_ai.Database.{RecoveryCase, Database}
use revenueguard_ai.Database.Tables.{by, change, by-key, by-change_self, by-change_other}
use revenueguard_ai.Agents.External.{External}
use revenueguard_ai.Agents.Graph.{invoke}
use revenueguard_ai.Worker.Persist.{
  updated_case, persist_result, audit_row, add_actions, all_linked,
}
use revenueguard_ai.Worker.Laws.{IsFailed, record_failure-IsFailed}
use revenueguard_ai.Worker.Process.{start_state, process_case}

updated_case-key :
    (result : RecoveryState) (now : ℕ) (c : RecoveryCase)
    → (updated_case result now c).case_id ≡ c.case_id
unfolding updated_case
updated_case-key result now c = ground arith

-- A run that returned `result` is kept when every audit entry of its trail refers to an action that is
-- in the table, or to none: its case is updated by the run, every other case is as it was, and the
-- entries of its trail are added to the log in their order, each with its action, agent, step, reasoning
-- and guardrails. Otherwise, when the trail refers to an action that is not in the table even with those
-- of the run, nothing of the run is kept: the case is marked as failed.
pub process_case-returned :
    (ext : External) (message : Failure → String) (now : ℕ) (case_id : String) (db : Database)
    (c : RecoveryCase) (result : RecoveryState)
    → by (λ r. r.case_id) case_id db.cases ≡ some c
    → invoke ext (start_state ext c db) ≡ some (returned result)
    → let db' = process_case ext message now case_id db in
      let linked =
        all_linked (add_actions c.case_id result.actions db.actions) result.audit_trail in
      (linked ≡ true
        → (by (λ r. r.case_id) case_id db'.cases ≡ some (updated_case result now c))
          × ((k : String)
              → k ≢ case_id
              → by (λ r. r.case_id) k db'.cases ≡ by (λ r. r.case_id) k db.cases)
          × (db'.audits
              ≡ db.audits
                ++ map
                    (λ e. record {
                      case_id = case_id;
                      action_id = e.action_id;
                      agent_name = e.agent_name;
                      step = e.step;
                      reasoning = e.reasoning;
                      guardrails_applied = e.guardrails_applied;
                    })
                    result.audit_trail))
      × (linked ≡ false → IsFailed now case_id (message integrity_error) c db db')
unfolding process_case persist_result
process_case-returned ext message now case_id db c result found run =
    let key = by-key (λ r. r.case_id) case_id db.cases c found in
    let f = updated_case result now in
    (
      λ linked.
          rw (found, run, linked, process_case)
            (
              subst
                  (λ k.
                    by (λ r. r.case_id) case_id (change (λ r. r.case_id) k f db.cases) ≡ some (f c))
                  (sym key)
                  (by-change_self (λ r. r.case_id) case_id f db.cases c
                    (updated_case-key result now) found),
              λ k other.
                  by-change_other (λ r. r.case_id) c.case_id k f db.cases
                    (updated_case-key result now) (λ e. other (e ∙ key)),
              ap (λ k. db.audits ++ map (audit_row k) result.audit_trail) key,
            ),
      λ dangling.
          rw (found, run, dangling, process_case)
            (record_failure-IsFailed now case_id (message integrity_error) c db found),
    )
