-- ===== src/Supervisors/Executor.antt =====
-- `MetadataExecutor` of core/supervisors/metadata.changelog.go: what the worker does with a finished
-- upload.
pub mod Taken
pub mod Versions
pub mod Filling
pub mod Completes
use arbokcore.Prelude.{
  ℕ, Text, text, ◌==◌, Option, none, some, List, [], ◌∷◌, ◌++◌, map, Dict, Bool, true, false,
  if◌then◌else◌,
}
use arbokcore.Prelude.Int.{ℤ, eqb_ℤ}
use arbokcore.Files.{
  CacheMetadata, UserFile, FilesWithChunks, FileInfoResponse, status_completed, status_failed,
}
use arbokcore.Files.Info.{build_files_info_response}
use arbokcore.Files.Repository.{select_files, update, create_batch}
use arbokcore.Files.Repository.Sql.{Order}
use arbokcore.Files.Requests.{Codec}
use arbokcore.Notifiers.{MetadataUpdateStatusEvent, PartialError, notify}
use arbokcore.Queuer.{Payload}
use arbokcore.Supervisors.Merge.{rest_of_chunks}
use arbokcore.Tokens.Repository.{QueryMapper}
use arbokcore.World.{
  World, Done, Go, Outcome, ok, err, panic, Result, value, error, pure, fail, crash, attempt,
  get_now, ◌>>=◌, ◌>>◌,
}

-- The row of a chunk that the new version takes over.
abbrev pub filler : FileInfoResponse → ℕ → Text × FilesWithChunks → UserFile
filler this_file now entry = record {
  user_id = this_file.user_id;
  file_id = this_file.id;
  chunk_id = entry.1.chunk_id;
  chunk_blob_url = entry.1.chunk_blob_url;
  chunk_hash = entry.1.chunk_hash;
  next_chunk_id = entry.1.next_chunk_id;
  created_at = now;
  updated_at = now;
}

unfoldable pub filler_chunks : FileInfoResponse → FileInfoResponse → Dict FilesWithChunks
filler_chunks this_file prev_file =
    if eqb_ℤ this_file.n_chunks prev_file.n_chunks then rest_of_chunks this_file prev_file else []

-- The first two responses as this file and the previous one; the error where there are not two.
unfoldable pub pick : Text → List FileInfoResponse → Option (FileInfoResponse × FileInfoResponse)
pick id [] = none
pick id (a ∷ []) = none
pick id (a ∷ b ∷ resps) = if a.id == id then some (a, b) else some (b, a)

abbrev pub status_after : Result Done → Text
status_after (value u) = status_completed
status_after (error e) = status_failed

unfoldable pub fill_with :
    QueryMapper
    → QueryMapper
    → CacheMetadata
    → FileInfoResponse
    → ℕ
    → List (Text × FilesWithChunks)
    → Go Done
fill_with meta_querier chunk_querier cached this_file now [] =
    update meta_querier cached.prev_id cached.id status_completed
fill_with meta_querier chunk_querier cached this_file now (entry ∷ entries) = do
  r ← attempt (create_batch chunk_querier (map (filler this_file now) (entry ∷ entries)))
  update meta_querier cached.prev_id cached.id (status_after r)

-- What `Validate` says of the reconstructed file is logged and not looked at.
unfoldable pub merge :
    QueryMapper → QueryMapper → CacheMetadata → FileInfoResponse → FileInfoResponse → Go Done
merge meta_querier chunk_querier cached this_file prev_file = do
  now ← get_now
  fill_with meta_querier chunk_querier cached this_file now (filler_chunks this_file prev_file)

unfoldable pub picked :
    QueryMapper → QueryMapper → CacheMetadata → Option (List FileInfoResponse) → Go Done
picked meta_querier chunk_querier cached none = crash
picked meta_querier chunk_querier cached (some resps) = elim (pick cached.id resps) [
  | none ↦ fail (text "file_merge_conflict")
  | some files ↦ merge meta_querier chunk_querier cached files.0 files.1
]

unfoldable pub execute_each : Order → QueryMapper → QueryMapper → CacheMetadata → Go Done
unfolding picked
execute_each order meta_querier chunk_querier cached = elim cached.prev_id [
  | none ↦ update meta_querier none cached.id status_completed
  | some prev ↦ (do
    rows ← select_files order meta_querier (some cached.id ∷ some prev ∷ [])
    picked meta_querier chunk_querier cached (build_files_info_response (map some rows)))
]

abbrev pub event_of : CacheMetadata → MetadataUpdateStatusEvent
event_of cached = record {
  file_id = cached.id;
  user_id = cached.user_id;
  prev_file_id = cached.prev_id;
  device_id = cached.device_id;
}

abbrev pub decoded : Result CacheMetadata → Go CacheMetadata
decoded (value cached) = pure cached
decoded (error e) = fail e

-- The loop over the payloads, of which a nil one is passed over.
unfoldable pub execute_payloads :
    Order
    → QueryMapper
    → QueryMapper
    → Codec CacheMetadata
    → List (Option Payload)
    → Go (List MetadataUpdateStatusEvent)
execute_payloads order meta_querier chunk_querier codec [] = pure []
execute_payloads order meta_querier chunk_querier codec (none ∷ payloads) =
    execute_payloads order meta_querier chunk_querier codec payloads
execute_payloads order meta_querier chunk_querier codec (some payload ∷ payloads) = do
  cached ← decoded (codec.decode payload.message)
  execute_each order meta_querier chunk_querier cached
  events ← execute_payloads order meta_querier chunk_querier codec payloads
  pure (event_of cached ∷ events)

unfoldable pub execute :
    Order
    → QueryMapper
    → QueryMapper
    → Codec CacheMetadata
    → Codec MetadataUpdateStatusEvent
    → List (Option Payload)
    → Go (Option PartialError)
unfolding execute_payloads
execute order meta_querier chunk_querier codec event_codec payloads = do
  events ← execute_payloads order meta_querier chunk_querier codec payloads
  notify event_codec events
