-- ===== src/Workers.antt =====
-- core/workers/metadata.manualreconcile.go: the merge of two versions by hand. The two ids are
-- constants of the source; the first one is the file that is given the missing chunks.
pub mod Reconcile
use arbokcore.Prelude.{Text, text, Option, none, some, List, [], ◌∷◌, map}
use arbokcore.Files.{CacheMetadata, FileInfoResponse}
use arbokcore.Files.Info.{build_files_info_response}
use arbokcore.Files.Repository.{select_files}
use arbokcore.Files.Repository.Sql.{Order}
use arbokcore.Supervisors.Executor.{pick, merge}
use arbokcore.Tokens.Repository.{QueryMapper}
use arbokcore.World.{Done, Go, fail, crash, ◌>>=◌}

-- `repo.Update(ctx, ids[0], *ids[1], …)`: the first id is the previous version, the second the new one.
abbrev pub updated_ids : Text → Text → CacheMetadata
updated_ids first_id second_id = record {
  user_id = [];
  prev_id = some first_id;
  device_id = [];
  id = second_id;
}

-- The steps after the choice of the two files are the worker's.
unfoldable pub reconciled :
    QueryMapper → QueryMapper → Text → Text → Option (List FileInfoResponse) → Go Done
reconciled meta_querier chunk_querier first_id second_id none = crash
reconciled meta_querier chunk_querier first_id second_id (some resps) = elim (pick first_id resps) [
  | none ↦ fail (text "file_merge_conflict")
  | some files ↦ merge meta_querier chunk_querier (updated_ids first_id second_id) files.0 files.1
]

unfoldable pub manual_chunk_metadata_reconciler :
    Order → QueryMapper → QueryMapper → Text → Text → Go Done
unfolding reconciled
manual_chunk_metadata_reconciler order meta_querier chunk_querier first_id second_id = do
  rows ← select_files order meta_querier (some first_id ∷ some second_id ∷ [])
  reconciled meta_querier chunk_querier first_id second_id
      (build_files_info_response (map some rows))
