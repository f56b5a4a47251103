-- ===== src/Api/Events/Relay/Laws.antt =====
-- An undisturbed relay brings every event to every socket that is there and takes it.
use revenueguard_ai.Common.{
  ℕ, suc, ◌≡◌, refl, ap, sym, Bool, true, false, List, [], ◌∷◌, map, filter, All, arith,
}
use mathlib.Core.Path.{subst}
use revenueguard_ai.Ingestion.Json.{Members}
use revenueguard_ai.Api.Events.{is_in, finished, size_changed, broadcast}
use revenueguard_ai.Api.Events.Sockets.{is_in-filter}
use revenueguard_ai.Api.Events.Laws.{broadcast-cases}
use revenueguard_ai.Api.Events.Relay.{
  Decoding, Message, Read, skipped, ended, event, Relayed, with_sent, read_message, relay_from,
  relay_redis_events,
}

abbrev pub does_not_end : Read → Bool
does_not_end ended = false
does_not_end _ = true

-- The event of a reading, before others.
abbrev pub add_event : Read → List Members → List Members
add_event (event e) l = e ∷ l
add_event _ l = l

-- What a socket that takes every message has of a relay of these events.
abbrev pub IsServed : ℕ → Relayed → List Members → Type 0
IsServed w r events =
    (r.listens ≡ true)
    × (map (λ x. x.0) r.sent ≡ events)
    × All (λ x. is_in w x.1 ≡ true) r.sent
    × (is_in w r.connections ≡ true)

module _ (decoding : Decoding) where
  open decoding use {Bytes}

  -- The dictionaries among the messages, in their order.
  abbrev pub dictionaries : List (Message Bytes) → List Members
  dictionaries [] = []
  dictionaries (m ∷ ms) = add_event (read_message decoding m) (dictionaries ms)

  module _ (accepts : ℕ → ℕ → Bool) (others : ℕ → ℕ → List ℕ → List ℕ)
      (quiet : (n k : ℕ) (connections : List ℕ) → others n k connections ≡ connections) (w : ℕ)
      (takes : (n : ℕ) → accepts n w ≡ true) where
    undisturbed :
        (n : ℕ) (connections : List ℕ)
        → broadcast (accepts n) (others n) connections
          ≡ finished (filter (accepts n) connections) (filter (accepts n) connections)
    undisturbed n connections =
        (broadcast-cases (accepts n) (others n) connections).0 (λ k. quiet n k connections)

    stays :
        (n : ℕ) (connections : List ℕ)
        → is_in w connections ≡ true
        → is_in w (filter (accepts n) connections) ≡ true
    stays n connections there =
        ground (arith, there, takes n, is_in-filter (accepts n) w connections)

    relay_from-IsServed :
        (n : ℕ) (ms : List (Message Bytes)) (connections : List ℕ)
        → All (λ m. does_not_end (read_message decoding m) ≡ true) ms
        → is_in w connections ≡ true
        → IsServed w (relay_from decoding accepts others n ms connections) (dictionaries ms)
    unfolding relay_from
    relay_from-IsServed n [] connections fine there = (refl, refl, tt, there)
    relay_from-IsServed n (m ∷ ms) connections fine there =
        go (read_message decoding m) fine.0
          (relay_from-IsServed (suc n) ms connections fine.1 there)
          (relay_from-IsServed (suc n) ms (filter (accepts n) connections) fine.1
            (stays n connections there))
      where
        go :
            (r : Read)
            → does_not_end r ≡ true
            → IsServed w
                (relay_from decoding accepts others (suc n) ms connections)
                (dictionaries ms)
            → IsServed w
                (relay_from decoding accepts others (suc n) ms (filter (accepts n) connections))
                (dictionaries ms)
            → IsServed w
                (elim r [
                  | skipped ↦ relay_from decoding accepts others (suc n) ms connections
                  | ended ↦ record { listens = false; connections = connections; sent = [] }
                  | event e ↦ elim (broadcast (accepts n) (others n) connections) [
                    | finished delivered left ↦
                        with_sent e delivered (relay_from decoding accepts others (suc n) ms left)
                    | size_changed delivered left ↦ record {
                      listens = false;
                      connections = left;
                      sent = (e, delivered) ∷ [];
                    }
                  ]
                ])
                (add_event r (dictionaries ms))
        go skipped ok same later = same
        go ended ok same later = cc
        go (event e) ok same later =
            subst
              (λ b.
                IsServed w
                  (elim b [
                    | finished delivered left ↦
                        with_sent e delivered (relay_from decoding accepts others (suc n) ms left)
                    | size_changed delivered left ↦ record {
                      listens = false;
                      connections = left;
                      sent = (e, delivered) ∷ [];
                    }
                  ])
                  (e ∷ dictionaries ms))
              (sym (undisturbed n connections))
              (later.0, ap (λ l. e ∷ l) later.1, (stays n connections there, later.2), later.3)

-- While no other task changes the set of sockets and no message ends the loop, a socket that is
-- connected and takes every message is served: the task still listens, the dictionaries of the
-- messages are sent in their order, each reaches the socket, and it is still connected.
pub relay_redis_events-IsServed :
    (decoding : Decoding) (accepts : ℕ → ℕ → Bool) (others : ℕ → ℕ → List ℕ → List ℕ)
    → ((n k : ℕ) (connections : List ℕ) → others n k connections ≡ connections)
    → (w : ℕ) → ((n : ℕ) → accepts n w ≡ true)
    → (messages : List (Message decoding.Bytes)) (connections : List ℕ)
    → All (λ m. does_not_end (read_message decoding m) ≡ true) messages
    → is_in w connections ≡ true
    → IsServed w
        (relay_redis_events decoding accepts others messages connections)
        (dictionaries decoding messages)
unfolding relay_redis_events
relay_redis_events-IsServed decoding accepts others quiet w takes messages connections fine there =
    relay_from-IsServed decoding accepts others quiet w takes 0 messages connections fine there
