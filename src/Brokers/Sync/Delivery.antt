-- ===== src/Brokers/Sync/Delivery.antt =====
-- From a notification to the channels of the user's devices.
use arbokcore.Brokers.{Message, message_key, find_topic_by_name}
use arbokcore.Files.Requests.{Codec}
use arbokcore.Notifiers.{MetadataUpdateStatusEvent}
use arbokcore.Prelude.{
  ℕ, Text, text, ◌==◌, Option, none, some, List, [], ◌∷◌, ◌++◌, map, if◌then◌else◌,
}
use arbokcore.Queuer.{Payload}
use arbokcore.Queuer.Partitions.{user_queue}
use arbokcore.World.{World, value, error}

-- What the channels are sent: each message goes to the channel of its user and device, if there is one.
abbrev pub at_topic : Message → Option ℕ → List (ℕ × Message)
at_topic m none = []
at_topic m (some ch) = (ch, m) ∷ []

abbrev pub deliveries : List (ℕ × Text) → List Message → List (ℕ × Message)
deliveries topics [] = []
deliveries topics (m ∷ ms) =
    at_topic m (find_topic_by_name topics (message_key m)) ++ deliveries topics ms

abbrev pub payload_at : Text → Text → Payload
payload_at user_id m = record { message = m; key = user_queue user_id }

-- The device of an event, and the other one of "1" and "2", or "2".
abbrev pub devices : Text → List Text
devices device_id = device_id ∷ (if device_id == text "2" then text "1" else text "2") ∷ []

-- The messages for the user's devices, two for each of the user's events that can be encoded, in order.
abbrev pub event_messages :
    Codec MetadataUpdateStatusEvent → Text → List MetadataUpdateStatusEvent → List Message
event_messages codec user_id [] = []
event_messages codec user_id (event ∷ events) =
    let rest = event_messages codec user_id events in
    elim (codec.encode event) [
      | error e ↦ rest
      | value m ↦
          if event.user_id == user_id
          then map
              (λ d. record {
                user_id = event.user_id;
                device_id = d;
                content = text "fileID:" ++ event.file_id;
              })
              (devices event.device_id)
            ++ rest
          else rest
    ]
