-- ===== src/Brokers/Sync.antt =====
-- `SSEConsumer.Execute` of pkg/brokers/metadata_sync_broker.go: the messages that it gives to the
-- broker for the payloads of a user's queue.
pub mod Delivery
use arbokcore.Prelude.{
  Text, text, ◌==◌, ◌++◌, Option, none, some, List, [], ◌∷◌, Bool, true, map, if◌then◌else◌,
}
use arbokcore.Brokers.{Message, Event, send_message}
use arbokcore.Files.Requests.{Codec}
use arbokcore.Notifiers.{MetadataUpdateStatusEvent}
use arbokcore.Queuer.{Payload}
use arbokcore.World.{Result, value, error}

unfoldable pub another_device : Text → Text
another_device device_id = if device_id == text "2" then text "1" else text "2"

abbrev pub message_for : MetadataUpdateStatusEvent → Text → Message
message_for event device_id = record {
  user_id = event.user_id;
  device_id = device_id;
  content = text "fileID:" ++ event.file_id;
}

-- The event's own device, and one other.
unfoldable pub messages_of : MetadataUpdateStatusEvent → List Message
messages_of event =
    message_for event event.device_id ∷ message_for event (another_device event.device_id) ∷ []

-- What was sent, and the error of the first payload that cannot be decoded, at which the loop returns.
pub record Executed : Type 0 where
  pub sent : List Message
  pub failure : Option Text

unfoldable pub execute_next : Result MetadataUpdateStatusEvent → Executed → Executed
execute_next (error e) rest = record { sent = []; failure = some e }
execute_next (value event) rest = record rest { sent = messages_of event ++ rest.sent }

unfoldable pub execute : Codec MetadataUpdateStatusEvent → List Payload → Executed
unfolding execute_next messages_of
execute codec [] = record { sent = []; failure = none }
execute codec (payload ∷ payloads) =
    execute_next (codec.decode payload.message) (execute codec payloads)

-- Each message is a call of `SendMessage`, which its receiver takes in time.
abbrev pub taken : List Message → List Event
taken messages = map (λ m. send_message m true) messages
