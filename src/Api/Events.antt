-- ===== src/Api/Events.antt =====
-- backend/api/events.py: the sockets of one process and the relay of the published events to them. A
-- socket is a number, its identity. While a message is sent, the other tasks of the process run.
pub mod Sockets
pub mod Relay
pub mod Laws
use revenueguard_ai.Common.{
  ℕ, suc, ◌==◌, Bool, true, false, not, ◌||◌, List, [], ◌∷◌, ◌++◌, if◌then◌else◌, length, filter,
}
use revenueguard_ai.Ingestion.Json.{Json, object, Members}

abbrev pub is_in : ℕ → List ℕ → Bool
is_in w [] = false
is_in w (v ∷ vs) = v == w || is_in w vs

-- `connect`, once the socket is accepted.
unfoldable pub connect : ℕ → List ℕ → List ℕ
connect w connections = if is_in w connections then connections else connections ++ w ∷ []

-- `disconnect`
unfoldable pub disconnect : ℕ → List ℕ → List ℕ
disconnect w connections = filter (λ v. not (v == w)) connections

abbrev pub disconnect_all : List ℕ → List ℕ → List ℕ
disconnect_all [] connections = connections
disconnect_all (w ∷ ws) connections = disconnect_all ws (disconnect w connections)

-- How a broadcast ends: the sockets that were reached, and the set of sockets afterwards.
pub data Broadcast : Type 0 where
  finished : (delivered connections : List ℕ) → Broadcast
  size_changed : (delivered connections : List ℕ) → Broadcast

-- `accepts` says whether a send succeeds. `others n` is what the other tasks make of the set during
-- the n-th send. The iterator compares the size of the set with the one at its start before every
-- element, and at its end; while the size stays, it goes on with the elements that are left.
module _ (accepts : ℕ → Bool) (others : ℕ → List ℕ → List ℕ) (size : ℕ) where
  unfoldable pub send_from : ℕ → List ℕ → List ℕ → List ℕ → List ℕ → Broadcast
  send_from n connections [] delivered failed =
      if length connections == size
      then finished delivered (disconnect_all failed connections)
      else size_changed delivered connections
  send_from n connections (w ∷ ws) delivered failed =
      let reached = send_from (suc n) (others n connections) ws (delivered ++ w ∷ []) failed in
      let lost = send_from (suc n) (others n connections) ws delivered (failed ++ w ∷ []) in
      if length connections == size
      then if accepts w then reached else lost
      else size_changed delivered connections

-- `broadcast`
unfoldable pub broadcast : (ℕ → Bool) → (ℕ → List ℕ → List ℕ) → List ℕ → Broadcast
broadcast accepts others connections =
    send_from accepts others (length connections) 0 connections connections [] []
