-- ===== src/Supervisors/Cycle.antt =====
-- A finished upload on its way from the answer to its user through the workers' queue to the worker.
pub mod Uploads
use arbokcore.Api.{build_response}
use arbokcore.Files.{FileMetadata, CacheMetadata, status_completed}
use arbokcore.Files.Repository.{find_by, update}
use arbokcore.Files.Repository.Sql.{Order, mark}
use arbokcore.Files.Repository.Update.{update-versioned}
use arbokcore.Files.Requests.{Codec, UserFileDevice}
use arbokcore.Files.Service.{enqueue_encoded, announced, cached_of, announce, mark_upload_complete}
use arbokcore.Files.Service.Completion.{clauses, uploading, upload_message}
use arbokcore.Notifiers.{MetadataUpdateStatusEvent, PayloadMap, payload_map, send_all, notify}
use arbokcore.Notifiers.Delivery.{messages_to, notify-answers}
use arbokcore.Prelude.{
  ==_refl, Text, text, Option, none, some, List, [], ◌∷◌, ◌++◌, map, lookup, ◌≡◌, refl, ap, ◌∙◌,
  arith, true, is_some,
}
use arbokcore.Prelude.Int.{pos}
use arbokcore.Queuer.{
  Payload, render, queue_items, items, rpush, enqueue_msg, read_msg, metadata_file_update_queue,
  metadata_update_clients_notifier_queue,
}
use arbokcore.Queuer.Fifo.{queue_items-push}
use arbokcore.Queuer.Partitions.{user_queue}
use arbokcore.Supervisors.Executor.Completes.{Succeeds}
use arbokcore.Supervisors.Executor.{execute_each, event_of, execute_payloads, execute}
use arbokcore.Supervisors.Producer.{Demand, kept, read_times, read_demand, produced, produce}
use arbokcore.Tokens.Repository.{QueryMapper, get_query}
use arbokcore.World.{World, Tables, Outcome, Done, ok, Result, value, error, bind-attempt-ok}

-- The payload of a message of the workers' queue, and a demand for one payload.
abbrev pub queued : Text → Payload
queued message = record { message = message; key = metadata_file_update_queue }

abbrev pub demand_one : Demand
demand_one = record { count = pos 1; user_id = [] }

-- While the driver answers every call.
pub record Calm (w w' : World) : Type 0 where
  pub answering : w'.answers ≡ []
  pub same_tables : w'.tables ≡ w.tables
  pub same_now : w'.now ≡ w.now

find_by-answers :
    (querier : QueryMapper) (device : UserFileDevice) (w : World)
    → is_some (lookup (text "FindBy") querier) ≡ true
    → w.answers ≡ []
    → ((find_by querier (clauses device) w).0 ≡ ok (uploading device w))
      × Calm w (find_by querier (clauses device) w).1
      × ((find_by querier (clauses device) w).1.queues ≡ w.queues)
unfolding find_by get_query
find_by-answers querier device w h a = (
  ground arith,
  record { answering = ground arith; same_tables = ground arith; same_now = ground arith },
  ground arith,
)

enqueue_encoded-answers :
    (m : Text) (w : World)
    → w.answers ≡ []
    → queue_items metadata_file_update_queue w ≡ []
    → ((enqueue_encoded (value m) w).0 ≡ ok tt)
      × Calm w (enqueue_encoded (value m) w).1
      × (queue_items metadata_file_update_queue (enqueue_encoded (value m) w).1 ≡ m ∷ [])
unfolding enqueue_encoded enqueue_msg render
enqueue_encoded-answers m w a q =
    let pushed = queue_items-push metadata_file_update_queue m w a in
    let sent : (rpush metadata_file_update_queue m w).0 ≡ ok tt = unfold rpush in ground arith in
    (
      sent,
      record {
        answering = unfold rpush in ground arith;
        same_tables = unfold rpush in ground arith;
        same_now = unfold rpush in ground arith;
      },
      rw (pushed, q) refl,
    )

-- The answer to the user, and the message in the queue.
module _ (codec : Codec CacheMetadata) (querier : QueryMapper) (device : UserFileDevice) (w : World)
    {metadata : FileMetadata} {rest : List FileMetadata} {m : Text}
    (found : uploading device w ≡ metadata ∷ rest)
    (encoded : codec.encode (cached_of device metadata) ≡ value m)
    (known : is_some (lookup (text "FindBy") querier) ≡ true) (answers : w.answers ≡ [])
    (empty : queue_items metadata_file_update_queue w ≡ []) where
  mark_upload_complete-answers :
      ((mark_upload_complete codec querier device w).0 ≡ ok (build_response none (some tt)))
      × Calm w (mark_upload_complete codec querier device w).1
      × (queue_items metadata_file_update_queue (mark_upload_complete codec querier device w).1
          ≡ m ∷ [])
  unfolding mark_upload_complete announce announced
  mark_upload_complete-answers =
      let search = find_by querier (clauses device) in
      let (o, c, q) = find_by-answers querier device w known answers in
      let (sent, d, l) =
        enqueue_encoded-answers m (search w).1 c.answering
          (ap (λ qs. items (lookup metadata_file_update_queue qs)) q ∙ empty) in
      rw
        (
          bind-attempt-ok search (announce codec device) w o,
          found,
          announce,
          encoded,
          sent,
          announced,
        )
        (
          refl,
          record {
            answering = d.answering;
            same_tables = d.same_tables ∙ c.same_tables;
            same_now = d.same_now ∙ c.same_now;
          },
          l,
        )

-- The payload that the worker is given.
produce-queued :
    (m : Text) (w : World)
    → w.answers ≡ []
    → queue_items metadata_file_update_queue w ≡ m ∷ []
    → ((produce metadata_file_update_queue (demand_one ∷ []) w).0
        ≡ ok (record { batches = (queued m ∷ []) ∷ []; running = true }))
      × Calm w (produce metadata_file_update_queue (demand_one ∷ []) w).1
unfolding produce produced read_demand read_times kept read_msg render
produce-queued m w a q = (
  ground (arith, a, q),
  record {
    answering = ground (arith, a, q);
    same_tables = ground (arith, a, q);
    same_now = ground (arith, a, q);
  },
)

send_all-tables : (ps : List (Option PayloadMap)) (w : World) → (send_all ps w).1.tables ≡ w.tables
unfolding send_all enqueue_msg rpush
send_all-tables [] w = refl
send_all-tables (none ∷ ps) w = send_all-tables ps w
send_all-tables (some p ∷ ps) w =
    let later =
      send_all-tables ps
        (enqueue_msg metadata_update_clients_notifier_queue p.user_id p.payload w).1 in
    ground (arith, later)

notify-tables :
    (codec : Codec MetadataUpdateStatusEvent) (events : List MetadataUpdateStatusEvent) (w : World)
    → (notify codec events w).1.tables ≡ w.tables
unfolding notify
notify-tables codec events w =
    let sent = send_all-tables (map (payload_map codec) events) w in ground (arith, sent)

-- The worker on one payload.
module _ (order : Order) (meta_querier chunk_querier : QueryMapper) (codec : Codec CacheMetadata)
    (event_codec : Codec MetadataUpdateStatusEvent) (w : World) {m : Text} {cached : CacheMetadata}
    {t : Tables} (decodes : codec.decode m ≡ value cached)
    (done : Succeeds w t (execute_each order meta_querier chunk_querier cached w)) where
  abbrev merged : World
  merged = (execute_each order meta_querier chunk_querier cached w).1

  execute-notify :
      execute order meta_querier chunk_querier codec event_codec (some (queued m) ∷ []) w
      ≡ notify event_codec (event_of cached ∷ []) merged
  unfolding execute execute_payloads
  execute-notify = rw (decodes, done.succeeded) refl

  execute-completed :
      ((execute order meta_querier chunk_querier codec event_codec (some (queued m) ∷ []) w).0
        ≡ ok none)
      × ((execute order meta_querier chunk_querier codec event_codec
            (some (queued m) ∷ [])
            w).1.tables
          ≡ t)
      × (queue_items
            (user_queue cached.user_id)
            (execute order meta_querier chunk_querier codec event_codec (some (queued m) ∷ []) w).1
          ≡ queue_items (user_queue cached.user_id) w
            ++ messages_to cached.user_id (map (payload_map event_codec) (event_of cached ∷ [])))
  execute-completed =
      let (sent, l) =
        notify-answers event_codec (event_of cached ∷ []) cached.user_id merged done.answers in
      rw execute-notify (
        sent,
        notify-tables event_codec (event_of cached ∷ []) merged ∙ done.tables,
        l
            ∙ ap
                (λ qs.
                  items (lookup (user_queue cached.user_id) qs)
                  ++ messages_to cached.user_id
                      (map (payload_map event_codec) (event_of cached ∷ [])))
                done.queues,
      )

-- The message about a file, if it can be encoded.
abbrev pub told : Result Text → List Text
told (value message) = message ∷ []
told (error e) = []

told-messages_to :
    (codec : Codec MetadataUpdateStatusEvent) (event : MetadataUpdateStatusEvent)
    → messages_to event.user_id (map (payload_map codec) (event ∷ [])) ≡ told (codec.encode event)
unfolding messages_to payload_map
told-messages_to codec event = ground (arith, ==_refl event.user_id)

-- What the devices of the user are told of an upload.
abbrev pub upload_event : UserFileDevice → FileMetadata → MetadataUpdateStatusEvent
upload_event device metadata = record {
  file_id = device.file_id;
  user_id = metadata.user_id;
  prev_file_id = metadata.prev_id;
  device_id = device.device_id;
}

-- The user is answered with a success, and a demand for one payload gives the worker exactly one; on
-- it the worker returns no error, the tables are then `t`, and the queue of the row's user has
-- gained the message about the file, if that can be encoded.
abbrev pub EndsWith :
    Order
    → QueryMapper
    → QueryMapper
    → Codec CacheMetadata
    → Codec MetadataUpdateStatusEvent
    → UserFileDevice
    → FileMetadata
    → World
    → Tables
    → Type 0
EndsWith order meta_querier chunk_querier codec event_codec device metadata w t =
    let asked = mark_upload_complete codec meta_querier device w in
    let made = produce metadata_file_update_queue (demand_one ∷ []) asked.1 in
    (payload : Payload) × (asked.0 ≡ ok (build_response none (some tt)))
    × (made.0 ≡ ok (record { batches = (payload ∷ []) ∷ []; running = true }))
    × (let worked =
          execute order meta_querier chunk_querier codec event_codec (some payload ∷ []) made.1 in
        (worked.0 ≡ ok none)
        × (worked.1.tables ≡ t)
        × (queue_items (user_queue metadata.user_id) worked.1
            ≡ queue_items (user_queue metadata.user_id) made.1
              ++ told (event_codec.encode (upload_event device metadata))))

-- The whole way, for any merge that succeeds.
pub mark_upload_complete-EndsWith :
    (order : Order) (meta_querier chunk_querier : QueryMapper) (codec : Codec CacheMetadata)
    (event_codec : Codec MetadataUpdateStatusEvent) (device : UserFileDevice) (w : World)
    {metadata : FileMetadata} {rest : List FileMetadata} {m : Text} (t : Tables)
    → uploading device w ≡ metadata ∷ rest
    → codec.encode (upload_message device metadata) ≡ value m
    → codec.decode m ≡ value (upload_message device metadata)
    → is_some (lookup (text "FindBy") meta_querier) ≡ true
    → w.answers ≡ []
    → queue_items metadata_file_update_queue w ≡ []
    → ((v : World)
        → Calm w v
        → Succeeds v t
            (execute_each order meta_querier chunk_querier (upload_message device metadata) v))
    → EndsWith order meta_querier chunk_querier codec event_codec device metadata w t
mark_upload_complete-EndsWith order mq cq codec event_codec device w {metadata} {rest} {m} t found
      encoded decodes finds answers empty merges =
    let (o, c, q) =
      mark_upload_complete-answers codec mq device w found encoded finds answers empty in
    let asked = mark_upload_complete codec mq device w in
    let (p, d) = produce-queued m asked.1 c.answering q in
    let made = produce metadata_file_update_queue (demand_one ∷ []) asked.1 in
    let calm : Calm w made.1 = record {
      answering = d.answering;
      same_tables = d.same_tables ∙ c.same_tables;
      same_now = d.same_now ∙ c.same_now;
    } in
    let done =
      execute-completed order mq cq codec event_codec made.1 decodes (merges made.1 calm) in
    let (sent, tables, queue) = done in
    let told_of = told-messages_to event_codec (upload_event device metadata) in
    (queued m, o, p, (sent, tables, rw told_of at queue))
