-- ===== src/Examples/Relays.antt =====
-- Three messages, of which the second is the note of a subscription, to two sockets.
use revenueguard_ai.Common.{ℕ, refl, Bool, true, false, not, ◌==◌, some, String, List, [], ◌∷◌}
use revenueguard_ai.Ingestion.Json.{object, text, member, no_members}
use revenueguard_ai.Api.Events.Relay.{
  Decoding, Message, bytes, nothing, relay_redis_events, read_message,
}
use revenueguard_ai.Api.Events.Relay.Laws.{IsServed, dictionaries, relay_redis_events-IsServed}

-- The bytes are texts, and every text is an event that has it as its kind.
abbrev decoding : Decoding
decoding = record {
  Bytes = String;
  utf8 = λ b. some b;
  loads = λ s. some (object (member "event" (text s) no_members));
}

abbrev messages : List (Message decoding.Bytes)
messages =
    record { is_message = true; data_of = bytes "case_created" }
    ∷ record { is_message = false; data_of = nothing }
    ∷ record { is_message = true; data_of = bytes "case_closed" }
    ∷ []

abbrev accepts : ℕ → ℕ → Bool
accepts n w = not (w == 2)

abbrev others : ℕ → ℕ → List ℕ → List ℕ
others n k connections = connections

relay_redis_events-IsServed_example :
    IsServed 1
      (relay_redis_events decoding accepts others messages (1 ∷ 2 ∷ []))
      (dictionaries decoding messages)
unfolding read_message
relay_redis_events-IsServed_example =
    relay_redis_events-IsServed decoding accepts others (λ n k connections. refl) 1 (λ n. refl)
      messages (1 ∷ 2 ∷ []) (refl, (refl, (refl, tt))) refl
