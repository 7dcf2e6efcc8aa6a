-- ===== src/Examples/Merging.antt =====
-- The merge of two versions, on the sample tables.
use arbokcore.Prelude.{ℕ, text, ◌==◌, some, [], ◌∷◌, lookup, or_else, true, ◌≡◌, ◌↔◌, refl}
use arbokcore.Files.{FilesWithChunks, FileInfoResponse, CacheMetadata}
use arbokcore.Files.Info.{new_info, build_files_info_response}
use arbokcore.Files.Info.Group.{group}
use arbokcore.Files.Repository.{select_files, update, create_batch, insert_chunks}
use arbokcore.Files.Repository.Sql.{join_files, in_ids}
use arbokcore.Supervisors.Merge.{rest_loop, rest_of_chunks, reconstruct_chunks, validate}
use arbokcore.Supervisors.Merge.Laws.{lookup-reconstruct_chunks}
use arbokcore.Supervisors.Merge.Validity.{Consistent, validate_iff}
use arbokcore.Supervisors.Executor.{filler_chunks, pick, fill_with, merge, execute_each}
use arbokcore.Supervisors.Executor.Taken.{Picked, taken_rows}
use arbokcore.Supervisors.Executor.Versions.{
  Filled, both_rows, execute_each-Filled, execute_each-keeps,
}
use arbokcore.Workers.{manual_chunk_metadata_reconciler}
use arbokcore.Workers.Reconcile.{rows_of, manual_chunk_metadata_reconciler-Filled}
use arbokcore.Examples.Data.{joined, querier, calm, answering}

abbrev chunk : ℕ → FilesWithChunks
chunk n = joined (text "v1") n (text "a")

abbrev prev_file : FileInfoResponse
prev_file = record (new_info (chunk 0)) { chunks = (text "0", chunk 0) ∷ (text "1", chunk 1) ∷ [] }

abbrev this_file : FileInfoResponse
this_file = record (new_info (joined (text "v2") 0 (text "c"))) {
  chunks = (text "0", joined (text "v2") 0 (text "c")) ∷ [];
}

lookup-reconstruct_chunks_example :
    lookup (text "1") (reconstruct_chunks this_file prev_file).chunks
    ≡ or_else (lookup (text "1") this_file.chunks) (lookup (text "1") prev_file.chunks)
unfolding lookup ◌==◌
lookup-reconstruct_chunks_example =
    lookup-reconstruct_chunks this_file prev_file (text "1") (refl, (refl, tt))

validate_iff_example : (validate this_file prev_file ≡ true) ↔ Consistent this_file prev_file
unfolding lookup ◌==◌
validate_iff_example = validate_iff this_file prev_file (refl, (refl, tt))

abbrev cached : CacheMetadata
cached = record {
  user_id = text "ann";
  prev_id = some (text "v1");
  device_id = text "1";
  id = text "v2";
}

execute_each-Filled_example :
    (files : FileInfoResponse × FileInfoResponse) × Picked cached.id
      (group (both_rows (λ rows. rows) calm cached (text "v1")))
      files
    × Filled calm cached
        (taken_rows files 10)
        (execute_each (λ rows. rows) querier querier cached calm).1.tables
unfolding execute_each select_files lookup ◌==◌ build_files_info_response join_files in_ids pick
    merge fill_with filler_chunks rest_of_chunks rest_loop create_batch insert_chunks update
execute_each-Filled_example =
    execute_each-Filled (λ rows. rows) querier querier cached (text "v1") calm refl refl

execute_each-keeps_example :
    (execute_each
      (λ rows. rows)
      querier
      querier
      cached
      (answering (some (text "e") ∷ []))).1.tables.file_metadatas
    ≡ calm.tables.file_metadatas
unfolding execute_each select_files lookup ◌==◌
execute_each-keeps_example =
    execute_each-keeps (λ rows. rows) querier querier cached (answering (some (text "e") ∷ []))
      (λ h. cc)

manual_chunk_metadata_reconciler-Filled_example :
    (files : FileInfoResponse × FileInfoResponse) × Picked
      (text "v2")
      (group (rows_of (λ rows. rows) calm (text "v2") (text "v1")))
      files
    × Filled calm
        (record { user_id = []; prev_id = some (text "v2"); device_id = []; id = text "v1" })
        (taken_rows files 10)
        (manual_chunk_metadata_reconciler
          (λ rows. rows)
          querier
          querier
          (text "v2")
          (text "v1")
          calm).1.tables
unfolding manual_chunk_metadata_reconciler select_files lookup ◌==◌ build_files_info_response
    join_files in_ids pick merge fill_with filler_chunks rest_of_chunks rest_loop create_batch
    insert_chunks update
manual_chunk_metadata_reconciler-Filled_example =
    manual_chunk_metadata_reconciler-Filled (λ rows. rows) querier querier (text "v2") (text "v1")
      calm refl
