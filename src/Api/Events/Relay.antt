-- ===== src/Api/Events/Relay.antt =====
-- backend/api/events.py: publish_event and relay_redis_events, and `_emit` of backend/api/main.py. The
-- decoding of bytes and `json.loads` are parameters; `none` is their exception.
pub mod Laws
use revenueguard_ai.Common.{
  ℕ, suc, String, Bool, true, false, Option, none, some, List, [], ◌∷◌, if◌then◌else◌,
}
use revenueguard_ai.Ingestion.Json.{Json, object, Members}
use revenueguard_ai.Api.Events.{Broadcast, finished, size_changed, broadcast}

pub record Decoding : Type 1 where
  pub Bytes : Type 0
  pub utf8 : Bytes → Option String
  pub loads : String → Option Json

pub data Payload (Bytes : Type 0) : Type 0 where
  bytes : Bytes → Payload Bytes
  text : String → Payload Bytes
  nothing : Payload Bytes

pub record Message (Bytes : Type 0) : Type 0 where
  pub is_message : Bool
  pub data_of : Payload Bytes

-- What the loop makes of a message: it goes on, it ends with the exception of the decoding, which
-- stands outside the `try`, or it has a dictionary to broadcast.
pub data Read : Type 0 where
  skipped ended : Read
  event : Members → Read

abbrev pub parsed : Option Json → Read
parsed (some (object members)) = event members
parsed _ = skipped

abbrev pub decoded_or : (String → Option Json) → Option String → Read
decoded_or loads none = ended
decoded_or loads (some s) = parsed (loads s)

-- `publish_event`: whether the client took the message.
unfoldable pub publish_event : Option Bool → Bool
publish_event none = false
publish_event (some taken) = taken

-- The sockets afterwards, the events that were sent with the sockets that they reached, and whether
-- the task still listens.
pub record Relayed : Type 0 where
  pub listens : Bool
  pub connections : List ℕ
  pub sent : List (Members × List ℕ)

abbrev pub with_sent : Members → List ℕ → Relayed → Relayed
with_sent e delivered r = record r { sent = (e, delivered) ∷ r.sent }

module _ (decoding : Decoding) where
  open decoding use {Bytes, utf8, loads}

  unfoldable pub read_message : Message Bytes → Read
  read_message m =
      if m.is_message
      then elim m.data_of [
        | bytes b ↦ decoded_or loads (utf8 b)
        | text s ↦ parsed (loads s)
        | nothing ↦ skipped
      ]
      else skipped

  -- `accepts n` and `others n` are those of the n-th message.
  module _ (accepts : ℕ → ℕ → Bool) (others : ℕ → ℕ → List ℕ → List ℕ) where
    -- The loop, from the n-th message on.
    unfoldable pub relay_from : ℕ → List (Message Bytes) → List ℕ → Relayed
    relay_from n [] connections = record { listens = true; connections = connections; sent = [] }
    relay_from n (m ∷ ms) connections = elim (read_message m) [
      | skipped ↦ relay_from (suc n) ms connections
      | ended ↦ record { listens = false; connections = connections; sent = [] }
      | event e ↦ elim (broadcast (accepts n) (others n) connections) [
        | finished delivered left ↦ with_sent e delivered (relay_from (suc n) ms left)
        | size_changed delivered left ↦ record {
          listens = false;
          connections = left;
          sent = (e, delivered) ∷ [];
        }
      ]
    ]

    -- `relay_redis_events`
    unfoldable pub relay_redis_events : List (Message Bytes) → List ℕ → Relayed
    relay_redis_events messages connections = relay_from 0 messages connections

-- `_emit`: what the client does not take is broadcast to the process's own sockets.
unfoldable pub emit : Option Bool → (ℕ → Bool) → (ℕ → List ℕ → List ℕ) → List ℕ → Broadcast
emit client accepts others connections =
    if publish_event client then finished [] connections else broadcast accepts others connections
