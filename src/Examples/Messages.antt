-- ===== src/Examples/Messages.antt =====
-- The queues, on the sample tables.
use arbokcore.Prelude.{text, List, [], ◌∷◌, map, lookup, ◌≡◌, refl}
use arbokcore.Queuer.{Payload, metadata_file_update_queue}
use arbokcore.Queuer.Fifo.{enqueue_each, read_each, received, message_of, read_each-enqueue_each}
use arbokcore.Files.{CacheMetadata}
use arbokcore.Files.Requests.{Codec, UserFileDevice}
use arbokcore.Files.Service.{mark_upload_complete}
use arbokcore.Files.Service.Completion.{Completed, mark_upload_complete-Completed}
use arbokcore.World.{value, error}
use arbokcore.Examples.Data.{calm, querier}

abbrev payloads : List Payload
payloads = record { message = text "m1"; key = [] } ∷ record { message = text "m2"; key = [] } ∷ []

read_each-enqueue_each_example :
    read_each metadata_file_update_queue [] 2
      (enqueue_each metadata_file_update_queue [] payloads calm)
    ≡ map (received metadata_file_update_queue []) (map message_of payloads)
unfolding lookup
read_each-enqueue_each_example =
    read_each-enqueue_each metadata_file_update_queue [] payloads calm refl refl

abbrev pub codec : Codec CacheMetadata
codec = record { encode = λ cached. value cached.id; decode = λ message. error (text "eof") }

abbrev device : UserFileDevice
device = record { user_id = text "ann"; device_id = text "1"; file_id = text "v2"; chunk_id = [] }

mark_upload_complete-Completed_example :
    Completed codec device calm (mark_upload_complete codec querier device calm)
mark_upload_complete-Completed_example = mark_upload_complete-Completed codec querier device calm
