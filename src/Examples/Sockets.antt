-- ===== src/Examples/Sockets.antt =====
-- Three sockets, of which the second refuses the message, and a fourth that joins meanwhile.
use revenueguard_ai.Common.{
  ℕ, ◌<◌, ◌≡◌, ◌≢◌, suc, Bool, not, ◌==◌, List, [], ◌∷◌, length, filter, take, if◌then◌else◌,
}
use revenueguard_ai.Api.Events.{connect, broadcast, finished, size_changed}
use revenueguard_ai.Api.Events.Laws.{broadcast-cases}

abbrev sockets : List ℕ
sockets = 1 ∷ 2 ∷ 3 ∷ []

abbrev accepts : ℕ → Bool
accepts w = not (w == 2)

-- It joins during the second send.
abbrev others : ℕ → List ℕ → List ℕ
others n connections = if n == 1 then connect 4 connections else connections

broadcast-cases_example :
    (((n : ℕ) → others n sockets ≡ sockets)
      → broadcast accepts others sockets
        ≡ finished (filter accepts sockets) (filter accepts sockets))
    × ((k : ℕ)
        → k < length sockets
        → ((i : ℕ) → i < k → others i sockets ≡ sockets)
        → length (others k sockets) ≢ length sockets
        → broadcast accepts others sockets
          ≡ size_changed (filter accepts (take (suc k) sockets)) (others k sockets))
broadcast-cases_example = broadcast-cases accepts others sockets
