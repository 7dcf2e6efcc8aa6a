-- ===== src/Files/Service/Completion.antt =====
-- What `MarkUploadComplete` puts on the queue of the workers.
use arbokcore.Prelude.{
  Text, text, ==_refl, none, some, Option-cases, List, [], ◌∷◌, ◌++◌, select, lookup, lookup-insert,
  ◌≡◌, ◌⊎◌, inl, inr, refl, arith,
}
use arbokcore.Api.{Response, build_response}
use arbokcore.Files.{FileMetadata, CacheMetadata, status_uploading}
use arbokcore.Files.Repository.{err_stmt_not_found, find_by}
use arbokcore.Files.Repository.Sql.{FindKv, has_all}
use arbokcore.Files.Requests.{Codec, UserFileDevice}
use arbokcore.Files.Service.{
  equals, enqueue_encoded, announced, cached_of, announce, mark_upload_complete,
}
use arbokcore.Queuer.{render, queue_items, rpush, enqueue_msg, metadata_file_update_queue}
use arbokcore.Tokens.Repository.{QueryMapper, get_query}
use arbokcore.World.{
  World, Done, Outcome, ok, err, Result, value, error, first, others, bind-attempt-ok,
  bind-attempt-err,
}

abbrev pub clauses : UserFileDevice → List FindKv
clauses device =
    equals (text "id") device.file_id ∷ equals (text "upload_status") status_uploading ∷ []

-- The rows of the file that is being uploaded.
abbrev pub uploading : UserFileDevice → World → List FileMetadata
uploading device w = select (has_all (clauses device)) w.tables.file_metadatas

-- What the workers are told of an upload.
abbrev pub upload_message : UserFileDevice → FileMetadata → CacheMetadata
upload_message device metadata = record {
  user_id = metadata.user_id;
  prev_id = metadata.prev_id;
  device_id = device.device_id;
  id = device.file_id;
}

-- The ways in which the completion of an upload can end.
pub data Completed (codec : Codec CacheMetadata) (device : UserFileDevice) (w : World)
    (run : Outcome (Response Done) × World) : Type 0 where
  queued :
      (metadata : FileMetadata) (rest : List FileMetadata) (message : Text)
      → uploading device w ≡ metadata ∷ rest
      → codec.encode (upload_message device metadata) ≡ value message
      → run.0 ≡ ok (build_response none (some tt))
      → queue_items metadata_file_update_queue run.1
        ≡ queue_items metadata_file_update_queue w ++ message ∷ []
      → run.1.tables ≡ w.tables
      → Completed codec device w run
  unqueued :
      (e : Text)
      → run.0 ≡ ok (build_response (some e) none)
      → run.1.queues ≡ w.queues
      → run.1.tables ≡ w.tables
      → Completed codec device w run

find_by-uploading :
    (querier : QueryMapper) (device : UserFileDevice) (w : World)
    → (((e : Text) × ((find_by querier (clauses device) w).0 ≡ err e))
        ⊎ ((find_by querier (clauses device) w).0 ≡ ok (uploading device w)))
      × ((find_by querier (clauses device) w).1.tables ≡ w.tables)
      × ((find_by querier (clauses device) w).1.queues ≡ w.queues)
unfolding find_by get_query
find_by-uploading querier device w = (
  elim (Option-cases (lookup (text "FindBy") querier)) [
    | inl e ↦ inl (err_stmt_not_found, ground (arith, e))
    | inr (stmt, e) ↦ elim (Option-cases (first w.answers)) [
      | inr (x, a) ↦ inl (text "failed to construct prepared stmt", ground (arith, e, a))
      | inl a ↦ elim (Option-cases (first (others w.answers))) [
        | inr (x, b) ↦ inl (x, ground (arith, e, a, b))
        | inl b ↦ inr (ground (arith, e, a, b))
      ]
    ]
  ],
  ground arith,
  ground arith,
)

-- A push to the queue of the workers.
enqueue_msg-cases :
    (message : Text) (w : World)
    → (((enqueue_msg metadata_file_update_queue [] (record { message = message; key = [] }) w).0
          ≡ ok tt)
        × (queue_items metadata_file_update_queue
              (enqueue_msg metadata_file_update_queue []
                (record { message = message; key = [] })
                w).1
            ≡ queue_items metadata_file_update_queue w ++ message ∷ []))
      ⊎ ((e : Text) × ((enqueue_msg metadata_file_update_queue []
              (record { message = message; key = [] })
              w).0
            ≡ err e)
          × ((enqueue_msg metadata_file_update_queue []
                (record { message = message; key = [] })
                w).1.queues
              ≡ w.queues))
unfolding enqueue_msg rpush render
enqueue_msg-cases message w =
    let q = metadata_file_update_queue in
    elim (Option-cases (first w.answers)) [
      | inl a ↦ inl (
        ground (arith, a),
        ground (arith, a, ==_refl q, lookup-insert q q (queue_items q w ++ message ∷ []) w.queues),
      )
      | inr (x, a) ↦ inr (x, ground (arith, a), ground (arith, a))
    ]

enqueue_msg-tables :
    (message : Text) (w : World)
    → (enqueue_msg metadata_file_update_queue []
        (record { message = message; key = [] })
        w).1.tables
      ≡ w.tables
unfolding enqueue_msg rpush
enqueue_msg-tables message w = ground arith

Result-cases : (r : Result Text) → ((a : Text) × (r ≡ value a)) ⊎ ((e : Text) × (r ≡ error e))
Result-cases (value a) = inl (a, refl)
Result-cases (error e) = inr (e, refl)

announce-Completed :
    (codec : Codec CacheMetadata) (device : UserFileDevice) (r : Result (List FileMetadata))
    (w w' : World)
    → w'.tables ≡ w.tables
    → w'.queues ≡ w.queues
    → ((rows : List FileMetadata) → r ≡ value rows → uploading device w ≡ rows)
    → Completed codec device w (announce codec device r w')
unfolding announce announced enqueue_encoded
announce-Completed codec device (error e) w w' t q f =
    unqueued (text "file_not_found:2019:404") refl q t
announce-Completed codec device (value []) w w' t q f =
    unqueued (text "file_not_found:2019:404") refl q t
announce-Completed codec device (value (metadata ∷ rest)) w w' t q f =
    elim (Result-cases (codec.encode (cached_of device metadata))) [
      | inr (x, e) ↦ rw (e, enqueue_encoded) (unqueued (text "internal_error:2021:500") refl q t)
      | inl (message, e) ↦
          rw (e, enqueue_encoded)
            (elim (enqueue_msg-cases message w') [
              | inl (h, l) ↦
                  queued metadata rest message (f (metadata ∷ rest) refl) e (ground (arith, h))
                    (ground (arith, h, l, q)) (ground (arith, h, t, enqueue_msg-tables message w'))
              | inr (x, h, k) ↦
                  unqueued (text "internal_error:2021:500") (ground (arith, h))
                    (ground (arith, h, k, q)) (ground (arith, h, t, enqueue_msg-tables message w'))
            ])
    ]

-- `MarkUploadComplete` never panics, returns no Go error and leaves the tables as they were. Either
-- a row of the file that is uploading is found, and one message has been added at the end of the
-- workers' queue, the encoding of the first such row's user and previous version with the ids of
-- the device and of the file; or the answer is a coded refusal, and no queue has changed.
pub mark_upload_complete-Completed :
    (codec : Codec CacheMetadata) (querier : QueryMapper) (device : UserFileDevice) (w : World)
    → Completed codec device w (mark_upload_complete codec querier device w)
unfolding mark_upload_complete
mark_upload_complete-Completed codec querier device w =
    let found = find_by querier (clauses device) in
    let (c, t, q) = find_by-uploading querier device w in
    elim c [
      | inl (x, h) ↦ rw (bind-attempt-err found (announce codec device) w h) (
          announce-Completed codec device (error x) w (found w).1 t q (λ rows p. ground (arith, p)))
      | inr h ↦ rw (bind-attempt-ok found (announce codec device) w h) (
          announce-Completed codec device (value (uploading device w)) w (found w).1 t q
            (λ rows p. ground (arith, p)))
    ]
