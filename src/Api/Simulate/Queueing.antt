-- ===== src/Api/Simulate/Queueing.antt =====
-- Which of the new ids are queued.
use mathlib.Core.Path.{subst}
use revenueguard_ai.Common.{
  ℕ, zero, suc, ◌+◌, ◌<◌, ◌≤◌, ◌≡◌, refl, ap, sym, ◌∙◌, inl, inr, String, Bool, true, false,
  Bool-cases, none, some, List, [], ◌∷◌, if◌then◌else◌, arith,
}
use revenueguard_ai.Api.Queue.{
  RedisClient, Enqueued, is_answered, after_push, push_from, enqueue_recovery_case,
}
use revenueguard_ai.Api.Queue.Laws.{copies, unanswered_among, late, late_le, raising, answered_now}
use revenueguard_ai.Api.Simulate.{Rows, enqueue_all}

-- The ids of a list, numbered from a position on, one after another at the head of the queue. A counted
-- one was answered: it is there, and once more for earlier attempts of its own that arrived and raised,
-- of which there are at most two. One that is not counted is there for such attempts only.
pub data Queued (arrivals : ℕ → ℕ) : ℕ → List String → List String → ℕ → List String → Type 0 where
  done : {k : ℕ} {queue : List String} → Queued arrivals k [] queue 0 queue
  pushed :
      {k : ℕ} {ids queue queue' : List String} {n : ℕ} (case_id : String) (earlier : ℕ)
      → earlier ≤ 2
      → earlier ≤ arrivals k
      → Queued arrivals (suc k) ids (copies (earlier + 1) case_id queue) n queue'
      → Queued arrivals k (case_id ∷ ids) queue (n + 1) queue'
  uncounted :
      {k : ℕ} {ids queue queue' : List String} {n : ℕ} (case_id : String) (arrived : ℕ)
      → arrived ≤ 3
      → arrived ≤ arrivals k
      → Queued arrivals (suc k) ids (copies arrived case_id queue) n queue'
      → Queued arrivals k (case_id ∷ ids) queue n queue'

-- How a bounded number of attempts ends.
data IsPushed (case_id : String) (queue : List String) (left arrivals : ℕ) (r : Enqueued)
    : Type 0 where
  taken :
      (n : ℕ)
      → n < left
      → n ≤ arrivals
      → r ≡ (true, copies (n + 1) case_id queue)
      → IsPushed case_id queue left arrivals r
  not_taken :
      (n : ℕ)
      → n ≤ left
      → n ≤ arrivals
      → r ≡ (false, copies n case_id queue)
      → IsPushed case_id queue left arrivals r

push_from-IsPushed :
    (client : RedisClient) (case_id : String) (queue : List String) (attempt left : ℕ)
    → IsPushed case_id queue left
        (unanswered_among client attempt left)
        (push_from client case_id queue attempt left)
push_from-IsPushed client case_id queue attempt zero =
    not_taken 0 (omega arith) (omega arith) (unfold push_from in refl)
push_from-IsPushed client case_id queue attempt (suc left) =
    elim (Bool-cases (is_answered (client attempt))) [
      | inl now ↦
          taken 0 (omega arith) (omega arith) (answered_now client case_id queue attempt left now)
      | inr raises ↦
          elim (push_from-IsPushed client case_id (after_push (client attempt) case_id queue)
            (suc attempt) left) [
              | taken n below few e ↦
                  taken (late (client attempt) + n) (omega (arith, late_le (client attempt)))
                    (omega (arith, few))
                    (raising client case_id queue attempt left (n + 1) true raises e
                      ∙ ap (λ m. (true, copies m case_id queue)) (omega arith))
              | not_taken n below few e ↦
                  not_taken (late (client attempt) + n) (omega (arith, late_le (client attempt)))
                    (omega (arith, few))
                    (raising client case_id queue attempt left n false raises e)
            ]
    ]

enqueue-IsPushed :
    (connected : Bool) (client : RedisClient) (case_id : String) (attempts : ℕ)
    (queue : List String)
    → IsPushed case_id queue attempts
        (unanswered_among client 0 attempts)
        (enqueue_recovery_case (if connected then some client else none) case_id attempts queue)
unfolding enqueue_recovery_case
enqueue-IsPushed false client case_id attempts queue = not_taken 0 (omega arith) (omega arith) refl
enqueue-IsPushed true client case_id attempts queue =
    push_from-IsPushed client case_id queue 0 attempts

module _ (connected : Bool) (rows : Rows) where
  abbrev enqueued : ℕ → String → List String → Bool × List String
  enqueued n case_id queue =
      enqueue_recovery_case (if connected then some (rows.client n) else none) case_id 3 queue

  abbrev counted : ℕ → List String → Bool × List String → ℕ × List String
  counted n ids r =
      let (count, queue) = enqueue_all connected rows (suc n) ids r.1 in
      ((if r.0 then count + 1 else count), queue)

  -- The attempts of the k-th case that arrive and raise.
  abbrev pub arrivals : ℕ → ℕ
  arrivals k = unanswered_among (rows.client k) 0 3

  pub enqueue_all-Queued :
      (n : ℕ) (ids queue : List String)
      → let (count, queue') = enqueue_all connected rows n ids queue in
        Queued arrivals n ids queue count queue'
  unfolding enqueue_all
  enqueue_all-Queued n [] queue = done
  enqueue_all-Queued n (case_id ∷ ids) queue =
      elim (enqueue-IsPushed connected (rows.client n) case_id 3 queue) [
        | taken k below few now ↦
            subst (λ r. let (c, q) = counted n ids r in Queued arrivals n (case_id ∷ ids) queue c q)
              (sym now)
              (pushed case_id k (omega arith) few
                (enqueue_all-Queued (suc n) ids (copies (k + 1) case_id queue)))
        | not_taken k below few not_now ↦
            subst (λ r. let (c, q) = counted n ids r in Queued arrivals n (case_id ∷ ids) queue c q)
              (sym not_now)
              (uncounted case_id k below few
                (enqueue_all-Queued (suc n) ids (copies k case_id queue)))
      ]
