-- ===== src/Examples/Cycles.antt =====
-- A first version, and a later one, from the end of the upload to the worker, on the sample tables.
use arbokcore.Prelude.{
  ℕ, Text, text, Dict, Option, none, some, [], ◌∷◌, map, lookup, insert, ◌==◌, refl, true, inr, ◌≢◌,
  arith,
}
use arbokcore.Prelude.Decimal.{show_ℤ}
use arbokcore.Prelude.Int.{pos}
use arbokcore.Examples.Data.{calm, querier, version, joined}
use arbokcore.Files.{CacheMetadata, FilesWithChunks, FileInfoResponse, status_completed}
use arbokcore.Files.Info.Group.{group_onto, add_row}
use arbokcore.Files.Repository.Update.{versioned}
use arbokcore.Files.Repository.Sql.{has_all, join_files, in_ids}
use arbokcore.Files.Requests.{Codec, UserFileDevice}
use arbokcore.Notifiers.{MetadataUpdateStatusEvent}
use arbokcore.Supervisors.Cycle.{EndsWith}
use arbokcore.Supervisors.Cycle.Uploads.{first_upload-completed, next_upload-completed}
use arbokcore.Supervisors.Executor.Taken.{taken_rows}
use arbokcore.Supervisors.Executor.Completes.{completed}
use arbokcore.World.{value, error}

-- A codec for the versions of one user that follow one version, if any.
abbrev codec : Option Text → Codec CacheMetadata
codec prev_id = record {
  encode = λ cached. value cached.id;
  decode = λ message.
      value
        (record { user_id = text "ann"; prev_id = prev_id; device_id = text "1"; id = message });
}

abbrev event_codec : Codec MetadataUpdateStatusEvent
event_codec = record {
  encode = λ event. value event.file_id;
  decode = λ message. error (text "eof");
}

abbrev device : Text → UserFileDevice
device file_id = record {
  user_id = text "ann";
  device_id = text "1";
  file_id = file_id;
  chunk_id = [];
}

first_upload-completed_example :
    EndsWith
      (λ rows. rows)
      querier
      querier
      (codec none)
      event_codec
      (device (text "v1"))
      (version (text "v1") none)
      calm
      (record (calm.tables) {
        file_metadatas =
            map (versioned none (text "v1") status_completed 10) calm.tables.file_metadatas;
      })
unfolding lookup ◌==◌ has_all
first_upload-completed_example =
    first_upload-completed (λ rows. rows) querier querier (codec none) event_codec
      (device (text "v1")) calm refl refl refl refl refl refl refl refl

abbrev row : Text → ℕ → Text → Option Text → FilesWithChunks
row id chunk_id url prev_id = record (joined id chunk_id url) {
  upload_status = [];
  file_id = [];
  prev_id = prev_id;
}

abbrev file : Text → Dict FilesWithChunks → FileInfoResponse
file id chunks = record {
  id = id;
  name = text "notes";
  hash = id;
  size = pos 5000000;
  file_type = text "txt";
  current_flag = true;
  chunks = chunks;
  n_chunks = pos 2;
  user_id = text "ann";
}

-- The second version lacks the last chunk.
abbrev files : FileInfoResponse × FileInfoResponse
files = (
  file (text "v2") ((text "0", row (text "v2") 0 (text "c") (some (text "v1"))) ∷ []),
  file (text "v1") (
      (text "0", row (text "v1") 0 (text "a") none)
      ∷ (text "1", row (text "v1") 1 (text "b") none)
      ∷ []),
)

other_version : text "v1" ≢ text "v2"
other_version q = ground (arith, q)

next_upload-completed_example :
    EndsWith
      (λ rows. rows)
      querier
      querier
      (codec (some (text "v1")))
      event_codec
      (device (text "v2"))
      (version (text "v2") (some (text "v1")))
      calm
      (completed calm (text "v1") (text "v2") (taken_rows files 10))
unfolding lookup ◌==◌ has_all join_files in_ids group_onto add_row insert show_ℤ
next_upload-completed_example =
    next_upload-completed (λ rows. rows) querier querier (codec (some (text "v1"))) event_codec
      (device (text "v2")) calm refl refl refl refl refl refl refl (text "v1") files refl
      ([], inr (refl, other_version)) refl refl
