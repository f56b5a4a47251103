-- ===== src/Api/Queue.antt =====
-- backend/redis_client.py: enqueue_recovery_case. A client is given by the ends of its pushes, of which
-- the n-th attempt has the n-th: it is answered, or it raises. What raises may have arrived all the
-- same, as when the answer is late.
pub mod Laws
use revenueguard_ai.Common.{
  ℕ, zero, suc, String, Bool, true, false, Option, none, some, List, ◌∷◌, if◌then◌else◌, ◌==◌,
}

pub data Push : Type 0 where
  answered rejected unanswered : Push

abbrev pub RedisClient : Type 0
RedisClient = ℕ → Push

-- What is returned, and the queue: `lpush` puts the case at its head.
abbrev pub Enqueued : Type 0
Enqueued = Bool × List String

abbrev pub is_answered : Push → Bool
is_answered answered = true
is_answered _ = false

-- The queue after one push.
abbrev pub after_push : Push → String → List String → List String
after_push rejected case_id queue = queue
after_push answered case_id queue = case_id ∷ queue
after_push unanswered case_id queue = case_id ∷ queue

-- The loop, from an attempt on, with the number of those that are left.
unfoldable pub push_from : RedisClient → String → List String → ℕ → ℕ → Enqueued
push_from client case_id queue attempt zero = (false, queue)
push_from client case_id queue attempt (suc left) =
    let queue' = after_push (client attempt) case_id queue in
    let rest = push_from client case_id queue' (suc attempt) left in
    if is_answered (client attempt)
    then (true, queue')
    else if left == 0
    then (false, queue')
    else rest

unfoldable pub enqueue_recovery_case : Option RedisClient → String → ℕ → List String → Enqueued
enqueue_recovery_case none case_id attempts queue = (false, queue)
enqueue_recovery_case (some client) case_id attempts queue =
    push_from client case_id queue 0 attempts
