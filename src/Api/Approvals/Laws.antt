-- ===== src/Api/Approvals/Laws.antt =====
-- What the two endpoints do to the requests.
use revenueguard_ai.Common.{
  ℕ, ◌≡◌, refl, ◌≢◌, String, Option, none, some, List, ◌<◌, ◌≤◌, arith, ap, sym, ◌∙◌,
}
use mathlib.Core.Path.{subst}
use revenueguard_ai.Models.{approved, rejected}
use revenueguard_ai.Database.{RecoveryApproval, Database}
use revenueguard_ai.Database.Tables.{IsUnique, change-IsUnique, by-change_self, by-change_other}
use revenueguard_ai.Api.Queue.{RedisClient, enqueue_recovery_case}
use revenueguard_ai.Api.Approvals.{
  decided, http_error, is_expired, find_approval, with_status, decide, approve_found, approve,
  reject_found, reject,
}

abbrev pub HasUniqueApprovals : Database → Type 0
HasUniqueApprovals db = IsUnique (λ a. a.approval_id) db.approvals

-- What a decision leaves behind: the request decided, the others and the rest of the database as
-- they were, and the requests still with a key each.
pub record IsDecision (approval_id : String) (a : RecoveryApproval) (db db' : Database)
    : Type 0 where
  pub found : find_approval approval_id db' ≡ some a
  pub others : (k : String) → k ≢ approval_id → find_approval k db' ≡ find_approval k db
  pub rest : record db' { approvals = db.approvals } ≡ db
  pub unique : HasUniqueApprovals db → HasUniqueApprovals db'

decide-IsDecision :
    (approval_id : String) (f : RecoveryApproval → RecoveryApproval) (db : Database)
    (a : RecoveryApproval)
    → ((b : RecoveryApproval) → (f b).approval_id ≡ b.approval_id)
    → find_approval approval_id db ≡ some a
    → IsDecision approval_id (f a) db (decide approval_id f db)
decide-IsDecision approval_id f db a keeps h = record {
  found = by-change_self (λ b. b.approval_id) approval_id f db.approvals a keeps h;
  others = λ k other. by-change_other (λ b. b.approval_id) approval_id k f db.approvals keeps other;
  rest = refl;
  unique = change-IsUnique (λ b. b.approval_id) approval_id f db.approvals keeps;
}

module _ (redis : Option RedisClient) (approval_id approved_by : String) (checked now : ℕ)
    (db : Database) (queue : List String) where
  approve_lapsed :
      (a : RecoveryApproval)
      → find_approval approval_id db ≡ some a
      → a.expires_at < checked
      → approve redis approval_id approved_by checked now db queue ≡ record {
        reply = http_error 409 "Approval request has expired";
        database = db;
        queue = queue;
      }
  unfolding approve is_expired
  approve_lapsed a h late =
      ap (approve_found redis approval_id approved_by checked now db queue) h ∙ ground arith

  approve_granted :
      (a : RecoveryApproval)
      → find_approval approval_id db ≡ some a
      → checked ≤ a.expires_at
      → approve redis approval_id approved_by checked now db queue ≡ record {
        reply =
            decided approval_id approved (some (enqueue_recovery_case redis a.case_id 3 queue).0);
        database = decide approval_id (with_status approved (some approved_by) now) db;
        queue = (enqueue_recovery_case redis a.case_id 3 queue).1;
      }
  unfolding approve is_expired
  approve_granted a h early =
      ap (approve_found redis approval_id approved_by checked now db queue) h ∙ ground arith

  pub approve_database :
      (a : RecoveryApproval)
      → find_approval approval_id db ≡ some a
      → checked ≤ a.expires_at
      → (approve redis approval_id approved_by checked now db queue).database
        ≡ decide approval_id (with_status approved (some approved_by) now) db
  approve_database a h early = ap (λ r. r.database) (approve_granted a h early)

  -- An approval succeeds up to the moment at which the request lapses and changes that request
  -- alone; the case is then pushed to the queue. Later, or for an unknown request, the reply is an
  -- error and database and queue are as before.
  pub approve-cases :
      let h = approve redis approval_id approved_by checked now db queue in
      (find_approval approval_id db ≡ none
        → h ≡ record { reply = http_error 404 "Approval not found"; database = db; queue = queue })
      × ((a : RecoveryApproval)
          → find_approval approval_id db ≡ some a
          → (a.expires_at < checked
              → h ≡ record {
                reply = http_error 409 "Approval request has expired";
                database = db;
                queue = queue;
              })
            × (checked ≤ a.expires_at
                → (h.reply
                    ≡ decided approval_id approved
                        (some (enqueue_recovery_case redis a.case_id 3 queue).0))
                  × (h.queue ≡ (enqueue_recovery_case redis a.case_id 3 queue).1)
                  × IsDecision approval_id
                      (with_status approved (some approved_by) now a)
                      db
                      h.database))
  unfolding approve is_expired
  approve-cases = (
    λ missing_one.
        ap (approve_found redis approval_id approved_by checked now db queue) missing_one,
    λ a h. (
      approve_lapsed a h,
      λ early.
          let e = approve_granted a h early in
          (
            ap (λ r. r.reply) e,
            ap (λ r. r.queue) e,
            subst (IsDecision approval_id (with_status approved (some approved_by) now a) db)
                (sym (ap (λ r. r.database) e))
                (decide-IsDecision approval_id (with_status approved (some approved_by) now) db a
                  (λ b. refl) h),
          ),
    ),
  )

-- A rejection decides a known request whenever it comes, also after its end, and queues nothing.
pub reject-cases :
    (approval_id : String) (now : ℕ) (db : Database) (queue : List String)
    → let h = reject approval_id now db queue in
      (find_approval approval_id db ≡ none
        → h ≡ record { reply = http_error 404 "Approval not found"; database = db; queue = queue })
      × ((a : RecoveryApproval)
          → find_approval approval_id db ≡ some a
          → (h.reply ≡ decided approval_id rejected none)
            × (h.queue ≡ queue)
            × IsDecision approval_id (with_status rejected a.approved_by now a) db h.database)
unfolding reject
reject-cases approval_id now db queue = (
  λ missing_one. ap (reject_found approval_id now db queue) missing_one,
  λ a h.
      let e = ap (reject_found approval_id now db queue) h in
      (
        ap (λ r. r.reply) e,
        ap (λ r. r.queue) e,
        subst (IsDecision approval_id (with_status rejected a.approved_by now a) db)
            (sym (ap (λ r. r.database) e))
            (decide-IsDecision approval_id (λ b. with_status rejected b.approved_by now b) db a
              (λ b. refl) h),
      ),
)

-- A rejection is not final: before the request lapses, an approval after a rejection is granted.
pub approve-reject :
    (redis : Option RedisClient) (approval_id approved_by : String) (rejected_at checked now : ℕ)
    (db : Database) (queue : List String) (a : RecoveryApproval)
    → find_approval approval_id db ≡ some a
    → checked ≤ a.expires_at
    → let h = reject approval_id rejected_at db queue in
      find_approval approval_id
        (approve redis approval_id approved_by checked now h.database h.queue).database
      ≡ some (with_status approved (some approved_by) now a)
approve-reject redis approval_id approved_by rejected_at checked now db queue a h early =
    let r = reject approval_id rejected_at db queue in
    let (_, _, first) = (reject-cases approval_id rejected_at db queue).1 a h in
    let (_, _, second) =
      ((approve-cases redis approval_id approved_by checked now r.database r.queue).1 _
          first.found).1
        early in
    second.found
