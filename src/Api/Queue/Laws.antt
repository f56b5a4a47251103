-- ===== src/Api/Queue/Laws.antt =====
-- When a case is queued, and how often.
use revenueguard_ai.Common.{
  ℕ, zero, suc, ◌+◌, ◌<◌, ◌≤◌, ◌≡◌, refl, String, Bool, true, false, some, List, ◌∷◌, sym, ◌∙◌,
  if◌then◌else◌, ◌==◌, ap, arith,
}
use revenueguard_ai.Api.Queue.{
  Push, answered, rejected, unanswered, RedisClient, Enqueued, is_answered, after_push, push_from,
  enqueue_recovery_case,
}

-- The queue with a case at its head a number of times.
abbrev pub copies : ℕ → String → List String → List String
copies zero case_id queue = queue
copies (suc n) case_id queue = case_id ∷ copies n case_id queue

-- Whether a push arrives and raises, as a number, and how many of the next ones do.
abbrev pub late : Push → ℕ
late answered = 0
late rejected = 0
late unanswered = 1

abbrev pub unanswered_among : RedisClient → ℕ → ℕ → ℕ
unanswered_among client attempt zero = 0
unanswered_among client attempt (suc k) =
    late (client attempt) + unanswered_among client (suc attempt) k

copies-cons :
    (n : ℕ) (case_id : String) (queue : List String)
    → copies n case_id (case_id ∷ queue) ≡ case_id ∷ copies n case_id queue
copies-cons zero case_id queue = refl
copies-cons (suc n) case_id queue = ap (λ l. case_id ∷ l) (copies-cons n case_id queue)

-- What a push that raises leaves, before the case is put there a number of times.
copies-after_push :
    (p : Push) (n : ℕ) (case_id : String) (queue : List String)
    → is_answered p ≡ false
    → copies n case_id (after_push p case_id queue) ≡ copies (late p + n) case_id queue
copies-after_push answered n case_id queue h = cc
copies-after_push rejected n case_id queue h = ap (λ m. copies m case_id queue) (omega arith)
copies-after_push unanswered n case_id queue h =
    let e : suc n ≡ late unanswered + n = omega arith in
    copies-cons n case_id queue ∙ ap (λ m. copies m case_id queue) e

module _ (client : RedisClient) (case_id : String) where
  moved : {m n : ℕ} {b : Bool} → m ≡ n → is_answered (client m) ≡ b → is_answered (client n) ≡ b
  moved e h = sym (ap (λ k. is_answered (client k)) e) ∙ h

  retried :
      (queue : List String) (attempt left : ℕ)
      → is_answered (client attempt) ≡ false
      → push_from client case_id queue attempt (suc left)
        ≡ push_from client case_id (after_push (client attempt) case_id queue) (suc attempt) left
  unfolding push_from
  retried queue attempt zero h = ground (arith, h)
  retried queue attempt (suc left) h = ground (arith, h)

  -- An attempt that raises, with how often the case is there after the rest.
  pub raising :
      (queue : List String) (attempt left n : ℕ) (b : Bool)
      → is_answered (client attempt) ≡ false
      → push_from client case_id (after_push (client attempt) case_id queue) (suc attempt) left
        ≡ (b, copies n case_id (after_push (client attempt) case_id queue))
      → push_from client case_id queue attempt (suc left)
        ≡ (b, copies (late (client attempt) + n) case_id queue)
  raising queue attempt left n b raises rest =
      retried queue attempt left raises
      ∙ rest
      ∙ ap (λ l. (b, l)) (copies-after_push (client attempt) n case_id queue raises)

  pub answered_now :
      (queue : List String) (attempt left : ℕ)
      → is_answered (client attempt) ≡ true
      → push_from client case_id queue attempt (suc left) ≡ (true, case_id ∷ queue)
  unfolding push_from
  answered_now queue attempt left now = go (client attempt) (push_from client case_id) now
    where
      go :
          (p : Push) (again : List String → ℕ → ℕ → Enqueued)
          → is_answered p ≡ true
          → (if is_answered p
              then (true, after_push p case_id queue)
              else if left == 0
              then (false, after_push p case_id queue)
              else again (after_push p case_id queue) (suc attempt) left)
            ≡ (true, case_id ∷ queue)
      go answered again h = refl
      go rejected again h = cc
      go unanswered again h = cc

  answered_at :
      (queue : List String) (attempt left k : ℕ)
      → k < left
      → is_answered (client (attempt + k)) ≡ true
      → ((i : ℕ) → i < k → is_answered (client (attempt + i)) ≡ false)
      → push_from client case_id queue attempt left
        ≡ (true, copies (unanswered_among client attempt k + 1) case_id queue)
  answered_at queue attempt zero k below now before = absurd (omega arith)
  answered_at queue attempt (suc left) zero below now before =
      answered_now queue attempt left (moved (omega arith) now)
  answered_at queue attempt (suc left) (suc k) below now before =
      raising queue attempt left (unanswered_among client (suc attempt) k + 1) true
        (moved (omega arith) (before 0 (omega arith)))
        (answered_at (after_push (client attempt) case_id queue) (suc attempt) left k (omega arith)
          (moved (omega arith) now) (λ i h. moved (omega arith) (before (suc i) (omega arith))))
      ∙ ap (λ n. (true, copies n case_id queue)) (omega arith)

  never_answered :
      (queue : List String) (attempt left : ℕ)
      → ((k : ℕ) → k < left → is_answered (client (attempt + k)) ≡ false)
      → push_from client case_id queue attempt left
        ≡ (false, copies (unanswered_among client attempt left) case_id queue)
  unfolding push_from
  never_answered queue attempt zero h = refl
  never_answered queue attempt (suc left) h =
      raising queue attempt left (unanswered_among client (suc attempt) left) false
        (moved (omega arith) (h 0 (omega arith)))
        (never_answered (after_push (client attempt) case_id queue) (suc attempt) left
          (λ k below. moved (omega arith) (h (suc k) (omega arith))))

pub late_le : (p : Push) → late p ≤ 1
late_le answered = omega arith
late_le rejected = omega arith
late_le unanswered = omega arith

unanswered_among_le : (client : RedisClient) (attempt k : ℕ) → unanswered_among client attempt k ≤ k
unanswered_among_le client attempt zero = omega arith
unanswered_among_le client attempt (suc k) =
    omega (arith, unanswered_among_le client (suc attempt) k, late_le (client attempt))

-- When one of the bounded number of attempts is answered, `true` is returned after the first such one,
-- and the case stands at the head of the queue, once, and once more for each attempt before it that
-- arrived and raised. When none is answered, `false` is returned, and the case is there once for each
-- attempt that arrived and raised: the queue is as before only if none did. It is never put there more
-- often than there were attempts.
pub enqueue_recovery_case-cases :
    (client : RedisClient) (case_id : String) (attempts : ℕ) (queue : List String)
    → ((k : ℕ)
        → k < attempts
        → is_answered (client k) ≡ true
        → ((i : ℕ) → i < k → is_answered (client i) ≡ false)
        → (enqueue_recovery_case (some client) case_id attempts queue
            ≡ (true, copies (unanswered_among client 0 k + 1) case_id queue))
          × (unanswered_among client 0 k + 1 ≤ attempts))
      × (((k : ℕ) → k < attempts → is_answered (client k) ≡ false)
          → (enqueue_recovery_case (some client) case_id attempts queue
              ≡ (false, copies (unanswered_among client 0 attempts) case_id queue))
            × (unanswered_among client 0 attempts ≤ attempts))
unfolding enqueue_recovery_case
enqueue_recovery_case-cases client case_id attempts queue = (
  λ k below now before. (
    answered_at client case_id queue 0 attempts k below (moved client case_id (omega arith) now)
        (λ i h. moved client case_id (omega arith) (before i h)),
    omega (arith, unanswered_among_le client 0 k),
  ),
  λ h. (
    never_answered client case_id queue 0 attempts
        (λ k below. moved client case_id (omega arith) (h k below)),
    unanswered_among_le client 0 attempts,
  ),
)
