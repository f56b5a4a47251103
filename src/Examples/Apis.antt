-- ===== src/Examples/Apis.antt =====
-- Decisions on the request of the large case.
use revenueguard_ai.Common.{◌≤◌, ◌+◌}
use revenueguard_ai.Common.{
  ℕ, zero, ◌+◌, ◌*◌, ◌<◌, ◌≤◌, ◌≡◌, refl, true, false, some, none, [], ◌∷◌, arith, ltb,
}
use revenueguard_ai.Models.{approved}
use revenueguard_ai.Models.Time.{hour_us, utc}
use revenueguard_ai.Guardrails.Policy.{has_valid_approval}
use revenueguard_ai.Worker.Process.{start_state}
use revenueguard_ai.Database.{RecoveryApproval, Database}
use revenueguard_ai.Api.Queue.{
  RedisClient, answered, unanswered, is_answered, enqueue_recovery_case,
}
use revenueguard_ai.Api.Queue.Laws.{copies, unanswered_among, enqueue_recovery_case-cases}
use revenueguard_ai.Api.Approvals.{decided, http_error, find_approval, with_status, approve, reject}
use revenueguard_ai.Api.Approvals.Laws.{IsDecision, approve-cases, approve-reject}
use revenueguard_ai.Api.Approvals.Active.{has_valid_approval-approve}
use revenueguard_ai.Examples.Texts.{write_date-nonempty}
use revenueguard_ai.Examples.World.{control_world, large_case, database_of, request, noon}

-- The first push arrives and raises, all others are answered.
abbrev client : RedisClient
client zero = unanswered
client _ = answered

enqueue_recovery_case-cases_example :
    ((k : ℕ)
      → k < 3
      → is_answered (client k) ≡ true
      → ((i : ℕ) → i < k → is_answered (client i) ≡ false)
      → (enqueue_recovery_case (some client) "REC-1" 3 ("REC-2" ∷ [])
          ≡ (true, copies (unanswered_among client 0 k + 1) "REC-1" ("REC-2" ∷ [])))
        × (unanswered_among client 0 k + 1 ≤ 3))
    × (((k : ℕ) → k < 3 → is_answered (client k) ≡ false)
        → (enqueue_recovery_case (some client) "REC-1" 3 ("REC-2" ∷ [])
            ≡ (false, copies (unanswered_among client 0 3) "REC-1" ("REC-2" ∷ [])))
          × (unanswered_among client 0 3 ≤ 3))
enqueue_recovery_case-cases_example = enqueue_recovery_case-cases client "REC-1" 3 ("REC-2" ∷ [])

abbrev one : Database
one = database_of large_case (request ∷ [])

approve-cases_example :
    let h = approve (some client) "APR-1" "meera" noon noon one [] in
    (find_approval "APR-1" one ≡ none
      → h ≡ record { reply = http_error 404 "Approval not found"; database = one; queue = [] })
    × ((a : RecoveryApproval)
        → find_approval "APR-1" one ≡ some a
        → (a.expires_at < noon
            → h ≡ record {
              reply = http_error 409 "Approval request has expired";
              database = one;
              queue = [];
            })
          × (noon ≤ a.expires_at
              → (h.reply
                  ≡ decided "APR-1" approved
                      (some (enqueue_recovery_case (some client) a.case_id 3 []).0))
                × (h.queue ≡ (enqueue_recovery_case (some client) a.case_id 3 []).1)
                × IsDecision "APR-1" (with_status approved (some "meera") noon a) one h.database))
approve-cases_example = approve-cases (some client) "APR-1" "meera" noon noon one []

approve-reject_example :
    let h = reject "APR-1" noon one [] in
    find_approval "APR-1"
      (approve (some client) "APR-1" "meera" noon noon h.database h.queue).database
    ≡ some (with_status approved (some "meera") noon request)
approve-reject_example =
    approve-reject (some client) "APR-1" "meera" noon noon noon one [] request refl (omega arith)

has_valid_approval-approve_example :
    has_valid_approval control_world.iso (noon + hour_us) (
      start_state control_world large_case
        (approve (some client) "APR-1" "meera" noon noon one []).database)
    ≡ ltb (noon + hour_us) (noon + 2 * hour_us)
has_valid_approval-approve_example =
    has_valid_approval-approve control_world (some client) "APR-1" "meera" noon noon one [] request
      large_case (noon + hour_us) (write_date-nonempty (utc (noon + 2 * hour_us))) refl refl
      (omega arith) (tt, tt) ((λ e. cc), tt)
