-- ===== src/Worker/Laws.antt =====
-- What processing a case does to the database.
use revenueguard_ai.Common.{
  ℕ, String, ◌≡◌, refl, ◌≢◌, Option, none, some, List, [], ◌∷◌, ◌++◌, Outcome, returned, raised,
  Failure, integrity_error, Bool, true, false, if◌then◌else◌, arith,
}
use revenueguard_ai.Models.{
  ApprovalStatus, approved, pending, RecoveryState, RecoveryAction, ApprovalEntry, requested,
  failed,
}
use revenueguard_ai.Database.{RecoveryCase, RecoveryActionRecord, RecoveryApproval, Database}
use revenueguard_ai.Database.Tables.{
  by, IsUnique, add_missing-IsUnique, change-IsUnique, by-change_self, by-change_other,
}
use revenueguard_ai.Agents.External.{External}
use revenueguard_ai.Agents.Graph.{invoke}
use revenueguard_ai.Worker.Persist.{
  build_state, persist_result, all_linked, add_actions, add_approval, updated_case,
}
use revenueguard_ai.Worker.Process.{
  active_approval, latest_approved, pick, start_state, record_failure, settle, process_found,
  process_case,
}

-- An approval that the worker hands to the graph has been approved.
abbrev IsGranted : Option RecoveryApproval → Type 0
IsGranted none = Unit
IsGranted (some a) = a.status ≡ approved

pick-IsGranted :
    (case_id : String) (best : Option RecoveryApproval) (a : RecoveryApproval)
    → IsGranted best
    → IsGranted (pick case_id best a)
pick-IsGranted case_id none a h = ground arith
pick-IsGranted case_id (some b) a h = ground arith

latest_approved-IsGranted :
    (case_id : String) (rows : List RecoveryApproval) (best : Option RecoveryApproval)
    → IsGranted best
    → IsGranted (latest_approved case_id best rows)
unfolding latest_approved
latest_approved-IsGranted case_id [] best h = h
latest_approved-IsGranted case_id (a ∷ rows) best h =
    latest_approved-IsGranted case_id rows (pick case_id best a) (pick-IsGranted case_id best a h)

build_state-fresh :
    (ext : External) (c : RecoveryCase) (o : Option RecoveryApproval)
    → IsGranted o
    → (build_state ext.iso c o).approval_status ≢ some pending
unfolding build_state
build_state-fresh ext c none h = λ e. cc
build_state-fresh ext c (some a) h = λ e. cc

-- So a run never starts with a pending approval.
pub start_state-fresh :
    (ext : External) (c : RecoveryCase) (db : Database)
    → (start_state ext c db).approval_status ≢ some pending
unfolding start_state active_approval
start_state-fresh ext c db =
    build_state-fresh ext _ _ (latest_approved-IsGranted c.case_id db.approvals none tt)

-- The tables keep their unique columns.
pub record IsSound (db : Database) : Type 0 where
  pub cases : IsUnique (λ c. c.case_id) db.cases
  pub actions : IsUnique (λ a. a.idempotency_key) db.actions
  pub approvals : IsUnique (λ a. a.approval_id) db.approvals

add_actions-IsUnique :
    (case_id : String) (l : List RecoveryAction) (rows : List RecoveryActionRecord)
    → IsUnique (λ a. a.idempotency_key) rows
    → IsUnique (λ a. a.idempotency_key) (add_actions case_id l rows)
unfolding add_actions
add_actions-IsUnique case_id [] rows u = u
add_actions-IsUnique case_id (a ∷ l) rows u =
    add_actions-IsUnique case_id l _ (add_missing-IsUnique _ _ rows u)

add_approval-IsUnique :
    (case_id : String) (status : Option ApprovalStatus) (entry : Option ApprovalEntry)
    (rows : List RecoveryApproval)
    → IsUnique (λ a. a.approval_id) rows
    → IsUnique (λ a. a.approval_id) (add_approval case_id status entry rows)
unfolding add_approval
add_approval-IsUnique case_id (some pending) (some (requested r)) rows u =
    add_missing-IsUnique _ _ rows u
add_approval-IsUnique case_id _ _ rows u = u

updated_case-keeps :
    (result : RecoveryState) (now : ℕ) (c : RecoveryCase)
    → (updated_case result now c).case_id ≡ c.case_id
unfolding updated_case
updated_case-keeps result now c = ground arith

record_failure-IsSound :
    (now : ℕ) (case_id reason : String) (db : Database)
    → IsSound db
    → IsSound (record_failure case_id now reason db)
unfolding record_failure
record_failure-IsSound now case_id reason db u = record {
  cases = change-IsUnique _ case_id _ db.cases (λ b. refl) u.cases;
  actions = u.actions;
  approvals = u.approvals;
}

-- What holds of a run that is kept, and of one that is rolled back.
pub either :
    (P : Database → Type 0) (b : Bool) {kept rolled_back : Database}
    → P kept
    → P rolled_back
    → P (if b then kept else rolled_back)
either P true p q = p
either P false p q = q

settle-IsSound :
    (message : Failure → String) (now : ℕ) (case_id : String) (c : RecoveryCase) (db : Database)
    (end : Option (Outcome RecoveryState))
    → IsSound db
    → IsSound (settle message now case_id c db end)
unfolding persist_result record_failure
settle-IsSound message now case_id c db (some (returned result)) u =
    either (IsSound)
      (all_linked (add_actions c.case_id result.actions db.actions) result.audit_trail)
      (record {
        cases =
            change-IsUnique _ c.case_id (updated_case result now) db.cases
              (updated_case-keeps result now) u.cases;
        actions = add_actions-IsUnique c.case_id result.actions db.actions u.actions;
        approvals =
            add_approval-IsUnique c.case_id result.approval_status result.approval_record
              db.approvals u.approvals;
      })
      (record_failure-IsSound now case_id (message integrity_error) db u)
settle-IsSound message now case_id c db (some (raised e)) u =
    record_failure-IsSound now case_id (message e) db u
settle-IsSound message now case_id c db none u = u

-- Processing a case, whatever comes of it, keeps the unique columns unique: no two cases share an id,
-- no two recorded actions an idempotency key, no two approvals an id. In particular an action that is
-- already recorded is not recorded again.
pub process_case-IsSound :
    (ext : External) (message : Failure → String) (now : ℕ) (case_id : String) (db : Database)
    → IsSound db
    → IsSound (process_case ext message now case_id db)
unfolding process_case
process_case-IsSound ext message now case_id db u = go (by (λ c. c.case_id) case_id db.cases)
  where
    go : (o : Option RecoveryCase) → IsSound (process_found ext message now case_id db o)
    go none = u
    go (some c) = settle-IsSound message now case_id c db (invoke ext (start_state ext c db)) u

-- A failure keeps nothing of the run: the case is marked as failed at that time, the other tables are as
-- they were, and one audit entry is added, which gives the reason.
pub record IsFailed (now : ℕ) (case_id reason : String) (c : RecoveryCase) (db db' : Database)
    : Type 0 where
  pub marked :
      by (λ r. r.case_id) case_id db'.cases
      ≡ some (record c { status = failed; updated_at = some now })
  pub others :
      (k : String) → k ≢ case_id → by (λ r. r.case_id) k db'.cases ≡ by (λ r. r.case_id) k db.cases
  pub same_actions : db'.actions ≡ db.actions
  pub same_approvals : db'.approvals ≡ db.approvals
  pub same_assignments : db'.assignments ≡ db.assignments
  pub same_health : db'.health ≡ db.health
  pub reported :
      db'.audits
      ≡ db.audits
        ++ record {
          case_id = case_id;
          action_id = none;
          agent_name = "worker";
          step = "process_case";
          reasoning = reason;
          guardrails_applied = [];
        }
          ∷ []

pub record_failure-IsFailed :
    (now : ℕ) (case_id reason : String) (c : RecoveryCase) (db : Database)
    → by (λ r. r.case_id) case_id db.cases ≡ some c
    → IsFailed now case_id reason c db (record_failure case_id now reason db)
unfolding record_failure
record_failure-IsFailed now case_id reason c db found = record {
  marked = by-change_self _ case_id _ db.cases c (λ b. refl) found;
  others = λ k other. by-change_other (λ r. r.case_id) case_id k _ db.cases (λ b. refl) other;
  same_actions = refl;
  same_approvals = refl;
  same_assignments = refl;
  same_health = refl;
  reported = refl;
}

-- An exception of a node leaves the actions, the approvals, the assignments, the health records and all
-- other cases as they were: the case is marked as failed at that time, and one audit entry is added,
-- which gives the text of the exception as its reason.
pub process_case-raised :
    (ext : External) (message : Failure → String) (now : ℕ) (case_id : String) (db : Database)
    (c : RecoveryCase) (e : Failure)
    → by (λ r. r.case_id) case_id db.cases ≡ some c
    → invoke ext (start_state ext c db) ≡ some (raised e)
    → IsFailed now case_id (message e) c db (process_case ext message now case_id db)
unfolding process_case
process_case-raised ext message now case_id db c e found raises =
    rw (found, raises, process_case) (record_failure-IsFailed now case_id (message e) c db found)
