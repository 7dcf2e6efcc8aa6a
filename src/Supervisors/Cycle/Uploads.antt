-- ===== src/Supervisors/Cycle/Uploads.antt =====
-- What becomes of a first version, and of a later one, whose upload is finished.
use arbokcore.Files.{FileMetadata, CacheMetadata, FileInfoResponse, status_completed}
use arbokcore.Files.Info.Group.{group}
use arbokcore.Files.Repository.{update}
use arbokcore.Files.Repository.Sql.{Order}
use arbokcore.Files.Repository.Update.{versioned, update-versioned}
use arbokcore.Files.Requests.{Codec, UserFileDevice}
use arbokcore.Files.Service.Completion.{uploading, upload_message}
use arbokcore.Notifiers.{MetadataUpdateStatusEvent}
use arbokcore.Prelude.{
  ℕ, Text, text, Option, none, some, List, [], ◌∷◌, ◌++◌, map, lookup, ◌≡◌, refl, ap₂, sym, subst,
  arith, true, is_some,
}
use arbokcore.Queuer.{queue_items, metadata_file_update_queue}
use arbokcore.Supervisors.Cycle.{EndsWith, mark_upload_complete-EndsWith}
use arbokcore.Supervisors.Executor.{execute_each}
use arbokcore.Supervisors.Executor.Completes.{Succeeds, completed, execute_each-Succeeds}
use arbokcore.Supervisors.Executor.Taken.{Picked, taken_rows}
use arbokcore.Supervisors.Executor.Versions.{both_rows}
use arbokcore.Tokens.Repository.{QueryMapper}
use arbokcore.World.{World, Tables, value, ok}

first-Succeeds :
    (order : Order) (meta_querier chunk_querier : QueryMapper) (cached : CacheMetadata) (w : World)
    → cached.prev_id ≡ none
    → is_some (lookup (text "UpdateCurrentFlag") meta_querier) ≡ true
    → w.answers ≡ []
    → Succeeds w
        (record (w.tables) {
          file_metadatas =
              map (versioned none cached.id status_completed w.now) w.tables.file_metadatas;
        })
        (execute_each order meta_querier chunk_querier cached w)
first-Succeeds order meta_querier chunk_querier cached w is_first known answers =
    let run : execute_each order meta_querier chunk_querier cached w
        ≡ update meta_querier none cached.id status_completed w =
      unfold execute_each in rw is_first refl in
    let done : (update meta_querier none cached.id status_completed w).0 ≡ ok tt =
      unfold update in ground arith in
    rw run (record {
      succeeded = done;
      tables = update-versioned meta_querier none cached.id status_completed w done;
      answers = unfold update in ground arith;
      now = unfold update in ground arith;
      queues = unfold update in ground arith;
    })

module _ (order : Order) (meta_querier chunk_querier : QueryMapper) (codec : Codec CacheMetadata)
    (event_codec : Codec MetadataUpdateStatusEvent) (device : UserFileDevice) (w : World)
    {metadata : FileMetadata} {rest : List FileMetadata} {m : Text}
    (found : uploading device w ≡ metadata ∷ rest)
    (encodes : codec.encode (upload_message device metadata) ≡ value m)
    (decodes : codec.decode m ≡ value (upload_message device metadata))
    (finds : is_some (lookup (text "FindBy") meta_querier) ≡ true)
    (updates : is_some (lookup (text "UpdateCurrentFlag") meta_querier) ≡ true)
    (answers : w.answers ≡ []) (empty : queue_items metadata_file_update_queue w ≡ []) where
  -- A finished upload of a first version becomes the current version of its file. While the driver and
  -- Redis answer every call, with both statements known, an empty workers' queue, a codec that decodes
  -- what it has encoded, and a row of the file that is uploading and has no previous version: the user
  -- is answered with a success, and a demand for one payload gives the worker exactly one; on it the
  -- worker returns no error, the row of the file, where it has no previous version, is completed and
  -- the current one, nothing else in the tables has changed, and the queue of the row's user has gained the message about the
  -- file, if that can be encoded.
  pub first_upload-completed :
      metadata.prev_id ≡ none
      → EndsWith order meta_querier chunk_querier codec event_codec device metadata w
          (record (w.tables) {
            file_metadatas =
                map (versioned none device.file_id status_completed w.now) w.tables.file_metadatas;
          })
  first_upload-completed is_first =
      let cached = upload_message device metadata in
      mark_upload_complete-EndsWith order meta_querier chunk_querier codec event_codec device w _
        found encodes decodes finds answers empty
        λ v calm.
          subst
            (λ (ts : Tables).
              Succeeds v
                (record ts {
                  file_metadatas =
                      map (versioned none device.file_id status_completed w.now) ts.file_metadatas;
                })
                (execute_each order meta_querier chunk_querier cached v))
            calm.same_tables
            (subst
              (λ now.
                Succeeds v
                  (record (v.tables) {
                    file_metadatas =
                        map (versioned none device.file_id status_completed now)
                          v.tables.file_metadatas;
                  })
                  (execute_each order meta_querier chunk_querier cached v))
              calm.same_now
              (first-Succeeds order meta_querier chunk_querier cached v is_first updates
                calm.answering))

  -- A finished upload of a later version completes it with the chunks of the previous one. While the
  -- driver and Redis answer every call, with the four statements known, an empty workers' queue, a
  -- codec that decodes what it has encoded, a row of the file that is uploading and has a previous
  -- version, and both versions among the first two files that are found: the user is answered with a
  -- success, and a demand for one payload gives the worker exactly one; on it the worker returns no
  -- error, the new version is the current one and completed, the previous one is retired now, rows of
  -- the new one have been added for the chunks of the previous one that it lacks, if both have as
  -- many, nothing else in the tables has changed, and the queue of the row's user has gained the message about the
  -- file, if that can be encoded.
  pub next_upload-completed :
      (prev : Text) (files : FileInfoResponse × FileInfoResponse)
      → metadata.prev_id ≡ some prev
      → Picked device.file_id
          (group (both_rows order w (upload_message device metadata) prev))
          files
      → is_some (lookup (text "SelectFilesForUser") meta_querier) ≡ true
      → is_some (lookup (text "CreateFileChunk") chunk_querier) ≡ true
      → EndsWith order meta_querier chunk_querier codec event_codec device metadata w
          (completed w prev device.file_id (taken_rows files w.now))
  next_upload-completed prev files has_prev picks selects inserts =
      mark_upload_complete-EndsWith order meta_querier chunk_querier codec event_codec device w _
        found encodes decodes finds answers empty
        λ v calm.
          let rows : both_rows order v (upload_message device metadata) prev
              ≡ both_rows order w (upload_message device metadata) prev =
            rw calm.same_tables refl in
          let merge =
            execute_each-Succeeds meta_querier chunk_querier metadata.user_id device.device_id prev
              device.file_id updates inserts order v files selects calm.answering
              (subst (λ r. Picked device.file_id (group r) files) (sym rows) picks) in
          let left : Tables → ℕ → Tables = λ ts now. record ts {
            file_metadatas =
                map (versioned (some prev) device.file_id status_completed now) ts.file_metadatas;
            user_files = ts.user_files ++ taken_rows files now;
          } in
          let here =
            subst
              (λ (t : Tables). Succeeds v t (
                execute_each order meta_querier chunk_querier
                  (record {
                    user_id = metadata.user_id;
                    prev_id = some prev;
                    device_id = device.device_id;
                    id = device.file_id;
                  })
                  v))
              (ap₂ left calm.same_tables calm.same_now) merge in
          subst
            (λ (p : Option Text). Succeeds v (left w.tables w.now) (
              execute_each order meta_querier chunk_querier
                (record {
                  user_id = metadata.user_id;
                  prev_id = p;
                  device_id = device.device_id;
                  id = device.file_id;
                })
                v))
            (sym has_prev) here
