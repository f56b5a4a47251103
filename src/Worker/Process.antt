-- ===== src/Worker/Process.antt =====
-- backend/worker.py: process_case and _record_failure. The events that it publishes, and what it
-- prints, are not part of the database.
use revenueguard_ai.Common.{
  ℕ, String, Bool, true, false, Option, none, some, List, [], ◌∷◌, ◌++◌, if◌then◌else◌, str_eq, ltb,
  ◌&&◌, Outcome, returned, raised, Failure, integrity_error,
}
use revenueguard_ai.Models.{triaging, failed, ApprovalStatus, approved, RecoveryState}
use revenueguard_ai.Database.{RecoveryCase, RecoveryApproval, Database}
use revenueguard_ai.Database.Tables.{by, change}
use revenueguard_ai.Agents.External.{External}
use revenueguard_ai.Agents.Graph.{invoke}
use revenueguard_ai.Worker.Persist.{build_state, add_actions, all_linked, persist_result}

abbrev pub is_approved : ApprovalStatus → Bool
is_approved approved = true
is_approved _ = false

abbrev pub at_or_zero : Option ℕ → ℕ
at_or_zero none = 0
at_or_zero (some t) = t

abbrev pub later : Option RecoveryApproval → RecoveryApproval → Option RecoveryApproval
later none a = some a
later (some b) a =
    if ltb (at_or_zero b.approved_at) (at_or_zero a.approved_at) then some a else some b

abbrev pub eligible : String → RecoveryApproval → Bool
eligible case_id a = str_eq a.case_id case_id && is_approved a.status

abbrev pub pick : String → Option RecoveryApproval → RecoveryApproval → Option RecoveryApproval
pick case_id best a = if eligible case_id a then later best a else best

-- `_active_approval`: of the approved requests for the case the one approved last.
unfoldable pub latest_approved :
    String → Option RecoveryApproval → List RecoveryApproval → Option RecoveryApproval
latest_approved case_id best [] = best
latest_approved case_id best (a ∷ rows) = latest_approved case_id (pick case_id best a) rows

unfoldable pub active_approval : String → Database → Option RecoveryApproval
active_approval case_id db = latest_approved case_id none db.approvals

-- `_record_failure`, after the rollback.
unfoldable pub record_failure : String → ℕ → String → Database → Database
record_failure case_id now reason db = record db {
  cases =
      change (λ c. c.case_id) case_id (λ c. record c { status = failed; updated_at = some now })
        db.cases;
  audits =
      db.audits
      ++ record {
        case_id = case_id;
        action_id = none;
        agent_name = "worker";
        step = "process_case";
        reasoning = reason;
        guardrails_applied = [];
      }
        ∷ [];
}

-- The state in which the graph starts.
unfoldable pub start_state : External → RecoveryCase → Database → RecoveryState
start_state ext c db =
    build_state ext.iso (record c { status = triaging }) (active_approval c.case_id db)

-- The database enforces its foreign keys: an audit entry that refers to an action that is not in the
-- table, because the action's idempotency key was there already, makes the commit raise, and all that
-- was kept of the run is rolled back. The last clause stands for a run that its fuel would not let end.
abbrev pub settle :
    (Failure → String)
    → ℕ
    → String
    → RecoveryCase
    → Database
    → Option (Outcome RecoveryState)
    → Database
settle message now case_id c db (some (returned result)) =
    if all_linked (add_actions c.case_id result.actions db.actions) result.audit_trail
    then persist_result result now c db
    else record_failure case_id now (message integrity_error) db
settle message now case_id c db (some (raised e)) = record_failure case_id now (message e) db
settle message now case_id c db none = db

abbrev pub process_found :
    External → (Failure → String) → ℕ → String → Database → Option RecoveryCase → Database
process_found ext message now case_id db none = db
process_found ext message now case_id db (some c) =
    settle message now case_id c db (invoke ext (start_state ext c db))

-- `process_case`: `message` is `str(exc)`. A missing case is skipped.
unfoldable pub process_case : External → (Failure → String) → ℕ → String → Database → Database
process_case ext message now case_id db =
    process_found ext message now case_id db (by (λ c. c.case_id) case_id db.cases)
