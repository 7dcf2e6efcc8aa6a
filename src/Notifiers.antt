-- ===== src/Notifiers.antt =====
-- core/notifiers/metadata.go: the messages that tell the devices of a user about a finished upload;
-- and `PartialError` of pkg/queuer/redis.queue.go.
pub mod Delivery
use arbokcore.Prelude.{Text, Option, none, some, List, [], ◌∷◌, map}
use arbokcore.Files.Requests.{Codec}
use arbokcore.Queuer.{Payload, enqueue_msg, metadata_update_clients_notifier_queue}
use arbokcore.World.{Go, Outcome, ok, panic, value, error, pure, attempt, ◌>>=◌}

pub record MetadataUpdateStatusEvent : Type 0 where
  pub file_id : Text
  pub user_id : Text
  pub prev_file_id : Option Text
  pub device_id : Text

pub record PartialError : Type 0 where
  pub wrapped : Option Text
  pub failed : List Payload

-- `perr.Err.Error()`: a nil error is dereferenced.
unfoldable pub error_of : PartialError → Outcome Text
error_of perr = elim perr.wrapped [ none ↦ panic | some e ↦ ok e ]

pub record PayloadMap : Type 0 where
  pub payload : Payload
  pub user_id : Text

-- `none` for an event that could not be encoded.
unfoldable pub payload_map :
    Codec MetadataUpdateStatusEvent → MetadataUpdateStatusEvent → Option PayloadMap
payload_map codec event = elim (codec.encode event) [
  | error e ↦ none
  | value message ↦
      some (record { payload = record { message = message; key = [] }; user_id = event.user_id })
]

-- The payloads that could not be enqueued.
unfoldable pub send_all : List (Option PayloadMap) → Go (List Payload)
send_all [] = pure []
send_all (none ∷ ps) = send_all ps
send_all (some p ∷ ps) = do
  r ← attempt (enqueue_msg metadata_update_clients_notifier_queue p.user_id p.payload)
  failed ← send_all ps
  elim r [ value u ↦ pure failed | error e ↦ pure (p.payload ∷ failed) ]

abbrev pub partial_error : List Payload → Option PartialError
partial_error [] = none
partial_error (p ∷ ps) = some (record { wrapped = none; failed = p ∷ ps })

-- `none` is the nil error.
unfoldable pub notify :
    Codec MetadataUpdateStatusEvent → List MetadataUpdateStatusEvent → Go (Option PartialError)
unfolding send_all payload_map
notify codec events = do
  failed ← send_all (map (payload_map codec) events)
  pure (partial_error failed)
