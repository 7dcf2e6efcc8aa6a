-- ===== src/Workers/Reconcile.antt =====
-- Which version the manual merge makes the current one.
use arbokcore.Prelude.{Text, some, Option-cases, List, [], ◌∷◌, ◌≡◌, inl, inr, subst, arith}
use arbokcore.Files.{FilesWithChunks, FileInfoResponse}
use arbokcore.Files.Info.Group.{group, build_files_info_response-group}
use arbokcore.Files.Repository.{select_files}
use arbokcore.Files.Repository.Sql.{Order, join_files, in_ids}
use arbokcore.Supervisors.Executor.{filler_chunks, pick, merge}
use arbokcore.Supervisors.Executor.Taken.{Picked, taken_rows, pick-Picked, grouped-taken_rows}
use arbokcore.Supervisors.Executor.Versions.{Filled, fill_with-Filled}
use arbokcore.Tokens.Repository.{QueryMapper}
use arbokcore.Workers.{updated_ids, reconciled, manual_chunk_metadata_reconciler}
use arbokcore.World.{World, ok, others}

abbrev pub rows_of : Order → World → Text → Text → List FilesWithChunks
rows_of order w first_id second_id =
    order (join_files (in_ids (some first_id ∷ some second_id ∷ [])) w.tables)

-- When the manual merge returns no error, the rows of both ids were found, and the file of the first
-- id, where it is the first of the first two found, and else the second of them, is given rows for the
-- chunks of the other that it lacks, if both have as many; but it is the row of the second id that
-- becomes the current one, if it names the first id as its previous version, and the first id is
-- retired: both are rewritten as completed, or as failed and no chunk is added.
pub manual_chunk_metadata_reconciler-Filled :
    (order : Order) (meta_querier chunk_querier : QueryMapper) (first_id second_id : Text)
    (w : World)
    → (manual_chunk_metadata_reconciler order meta_querier chunk_querier first_id second_id w).0
      ≡ ok tt
    → (files : FileInfoResponse × FileInfoResponse) × Picked first_id
        (group (rows_of order w first_id second_id))
        files
      × Filled w
          (record { user_id = []; prev_id = some first_id; device_id = []; id = second_id })
          (taken_rows files w.now)
          (manual_chunk_metadata_reconciler order meta_querier chunk_querier first_id second_id
            w).1.tables
unfolding manual_chunk_metadata_reconciler select_files reconciled merge
manual_chunk_metadata_reconciler-Filled order mq cq first_id second_id w h =
    let rows = rows_of order w first_id second_id in
    let built = build_files_info_response-group rows in
    let w' = record w { answers = others w.answers } in
    let run = manual_chunk_metadata_reconciler order mq cq first_id second_id w in
    elim (Option-cases (pick first_id (group rows))) [
      | inl e ↦ absurd (ground (arith, built))
      | inr (files, e) ↦
          let t =
            fill_with-Filled mq cq (updated_ids first_id second_id) files.0
              (filler_chunks files.0 files.1) w' (ground (arith, built)) in
          let p = pick-Picked first_id (group rows) files e in
          (
            files,
            p,
            subst (λ l. Filled w (updated_ids first_id second_id) l run.1.tables)
                (grouped-taken_rows first_id rows files w.now p) (ground (arith, built, t)),
          )
    ]
