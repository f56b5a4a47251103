-- ===== src/Api/Approvals.antt =====
-- backend/api/main.py: the endpoints that approve and reject a request of the worker's. The session of
-- `get_db` is committed when an endpoint returns, and rolled back when it raises.
pub mod Laws
pub mod Active
use revenueguard_ai.Common.{
  ℕ, String, Bool, true, false, Option, none, some, List, if◌then◌else◌, ltb,
}
use revenueguard_ai.Models.{ApprovalStatus, approved, rejected}
use revenueguard_ai.Database.{RecoveryApproval, Database}
use revenueguard_ai.Database.Tables.{by, change}
use revenueguard_ai.Api.Queue.{RedisClient, Enqueued, enqueue_recovery_case}

-- The reply of an endpoint: `queued` is not part of a rejection's.
pub data Reply : Type 0 where
  decided : String → ApprovalStatus → Option Bool → Reply
  http_error : ℕ → String → Reply

pub record Handled : Type 0 where
  pub reply : Reply
  pub database : Database
  pub queue : List String

-- `_is_expired`, of a column that is always aware (UTCDateTime).
unfoldable pub is_expired : ℕ → ℕ → Bool
is_expired now expires_at = ltb expires_at now

abbrev pub find_approval : String → Database → Option RecoveryApproval
find_approval approval_id db = by (λ a. a.approval_id) approval_id db.approvals

abbrev pub with_status : ApprovalStatus → Option String → ℕ → RecoveryApproval → RecoveryApproval
with_status status approved_by now a = record a {
  status = status;
  approved_by = approved_by;
  approved_at = some now;
  decision_channel = some "api";
}

-- The row with this key, decided.
abbrev pub decide : String → (RecoveryApproval → RecoveryApproval) → Database → Database
decide approval_id f db = record db {
  approvals = change (λ a. a.approval_id) approval_id f db.approvals;
}

-- `approve`: `checked` and `now` are its two readings of the clock.
abbrev pub approve_found :
    Option RedisClient
    → String
    → String
    → ℕ
    → ℕ
    → Database
    → List String
    → Option RecoveryApproval
    → Handled
approve_found redis approval_id approved_by checked now db queue none = record {
  reply = http_error 404 "Approval not found";
  database = db;
  queue = queue;
}
approve_found redis approval_id approved_by checked now db queue (some a) =
    let (queued, queue') = enqueue_recovery_case redis a.case_id 3 queue in
    if is_expired checked a.expires_at
    then record {
      reply = http_error 409 "Approval request has expired";
      database = db;
      queue = queue;
    }
    else record {
      reply = decided approval_id approved (some queued);
      database = decide approval_id (with_status approved (some approved_by) now) db;
      queue = queue';
    }

unfoldable pub approve :
    Option RedisClient → String → String → ℕ → ℕ → Database → List String → Handled
approve redis approval_id approved_by checked now db queue =
    approve_found redis approval_id approved_by checked now db queue (find_approval approval_id db)

abbrev pub reject_found : String → ℕ → Database → List String → Option RecoveryApproval → Handled
reject_found approval_id now db queue none = record {
  reply = http_error 404 "Approval not found";
  database = db;
  queue = queue;
}
reject_found approval_id now db queue (some a) = record {
  reply = decided approval_id rejected none;
  database = decide approval_id (λ b. with_status rejected b.approved_by now b) db;
  queue = queue;
}

unfoldable pub reject : String → ℕ → Database → List String → Handled
reject approval_id now db queue =
    reject_found approval_id now db queue (find_approval approval_id db)
