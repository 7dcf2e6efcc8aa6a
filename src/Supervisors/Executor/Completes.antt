-- ===== src/Supervisors/Executor/Completes.antt =====
-- The worker on a version with a previous one, while the driver answers every call.
use mathlib.Core.List.{append-nil, append_assoc}
use arbokcore.Prelude.{
  ℕ, Text, text, some, List, [], ◌∷◌, ◌++◌, map, lookup, is_some, true, ◌≡◌, ap₂, ◌∙◌, subst, arith,
}
use arbokcore.Files.{CacheMetadata, UserFile, FilesWithChunks, FileInfoResponse, status_completed}
use arbokcore.Files.Info.Group.{group, build_files_info_response-group}
use arbokcore.Files.Repository.{select_files, update, insert_chunks, create_batch}
use arbokcore.Files.Repository.Sql.{Order}
use arbokcore.Files.Repository.Update.{versioned, update-versioned}
use arbokcore.Supervisors.Executor.{
  filler, filler_chunks, fill_with, merge, picked, execute_each, status_after,
}
use arbokcore.Supervisors.Executor.Taken.{Picked, taken_rows, Picked-pick, grouped-taken_rows}
use arbokcore.Supervisors.Executor.Versions.{both_rows}
use arbokcore.Tokens.Repository.{QueryMapper}
use arbokcore.World.{World, Tables, Done, Outcome, ok, others, Result, bind-attempt-ok}

-- A call that succeeds, leaves the clock and the queues as they were, and makes these tables.
pub record Succeeds (w : World) (t : Tables) (run : Outcome Done × World) : Type 0 where
  pub succeeded : run.0 ≡ ok tt
  pub tables : run.1.tables ≡ t
  pub answers : run.1.answers ≡ []
  pub now : run.1.now ≡ w.now
  pub queues : run.1.queues ≡ w.queues

insert_chunks-Succeeds :
    (chunks : List UserFile) (t : Tables) (w : World)
    → w.answers ≡ []
    → Succeeds w (record t { user_files = t.user_files ++ chunks }) (insert_chunks chunks t w)
unfolding insert_chunks
insert_chunks-Succeeds [] t w h = rw append-nil (ground arith)
insert_chunks-Succeeds (chunk ∷ chunks) t w h =
    let ih =
      insert_chunks-Succeeds chunks (record t { user_files = t.user_files ++ chunk ∷ [] })
        (record w { answers = others w.answers }) (ground arith) in
    ground (arith, ih, append_assoc t.user_files (chunk ∷ []) chunks)

create_batch-Succeeds :
    (querier : QueryMapper) (chunks : List UserFile) (w : World)
    → is_some (lookup (text "CreateFileChunk") querier) ≡ true
    → w.answers ≡ []
    → Succeeds w
        (record (w.tables) { user_files = w.tables.user_files ++ chunks })
        (create_batch querier chunks w)
unfolding create_batch
create_batch-Succeeds querier chunks w k h =
    let ih =
      insert_chunks-Succeeds chunks w.tables (record w { answers = others w.answers })
        (ground arith) in
    ground (arith, ih)

module _ (querier : QueryMapper) (prev id status : Text) (w : World)
    (known : is_some (lookup (text "UpdateCurrentFlag") querier) ≡ true)
    (calm : w.answers ≡ []) where
  update-ok : (update querier (some prev) id status w).0 ≡ ok tt
  unfolding update
  update-ok = ground arith

  update-answers : (update querier (some prev) id status w).1.answers ≡ []
  unfolding update
  update-answers = ground arith

  update-now : (update querier (some prev) id status w).1.now ≡ w.now
  unfolding update
  update-now = ground arith

  update-queues : (update querier (some prev) id status w).1.queues ≡ w.queues
  unfolding update
  update-queues = ground arith

  update-Succeeds :
      Succeeds w
        (record (w.tables) {
          file_metadatas = map (versioned (some prev) id status w.now) w.tables.file_metadatas;
        })
        (update querier (some prev) id status w)
  update-Succeeds = record {
    succeeded = update-ok;
    tables = update-versioned querier (some prev) id status w update-ok;
    answers = update-answers;
    now = update-now;
    queues = update-queues;
  }

-- The tables after a merge that completes.
abbrev pub completed : World → Text → Text → List UserFile → Tables
completed w prev id chunks = record (w.tables) {
  file_metadatas = map (versioned (some prev) id status_completed w.now) w.tables.file_metadatas;
  user_files = w.tables.user_files ++ chunks;
}

-- One success after another.
then-Succeeds :
    (w w' : World) {t t' : Tables} {run : Outcome Done × World}
    → w'.now ≡ w.now
    → w'.queues ≡ w.queues
    → t' ≡ t
    → Succeeds w' t' run
    → Succeeds w t run
then-Succeeds w w' n q e s = record {
  succeeded = s.succeeded;
  tables = s.tables ∙ e;
  answers = s.answers;
  now = s.now ∙ n;
  queues = s.queues ∙ q;
}

module _ (meta_querier chunk_querier : QueryMapper) (user_id device_id prev id : Text)
    (updates : is_some (lookup (text "UpdateCurrentFlag") meta_querier) ≡ true)
    (inserts : is_some (lookup (text "CreateFileChunk") chunk_querier) ≡ true) where
  abbrev cached : CacheMetadata
  cached = record { user_id = user_id; prev_id = some prev; device_id = device_id; id = id }

  fill_with-Succeeds :
      (this_file : FileInfoResponse) (entries : List (Text × FilesWithChunks)) (w : World)
      → w.answers ≡ []
      → Succeeds w
          (completed w prev id (map (filler this_file w.now) entries))
          (fill_with meta_querier chunk_querier cached this_file w.now entries w)
  unfolding fill_with
  fill_with-Succeeds this_file [] w h =
      rw append-nil (update-Succeeds meta_querier prev id status_completed w updates h)
  fill_with-Succeeds this_file (x ∷ xs) w h =
      let chunks = map (filler this_file w.now) (x ∷ xs) in
      let create = create_batch chunk_querier chunks in
      let finish = λ (r : Result Done). update meta_querier (some prev) id (status_after r) in
      let b = create_batch-Succeeds chunk_querier chunks w inserts h in
      let u =
        update-Succeeds meta_querier prev id status_completed (create w).1 updates b.answers in
      rw (bind-attempt-ok create finish w b.succeeded) (
        then-Succeeds w (create w).1 b.now b.queues
          (ap₂
            (λ (t : Tables) (now : ℕ). record t {
              file_metadatas = map (versioned (some prev) id status_completed now) t.file_metadatas;
            })
            b.tables b.now)
          u)

  -- The worker completes a version whose rows and whose previous version's rows are found.
  pub execute_each-Succeeds :
      (order : Order) (w : World) (files : FileInfoResponse × FileInfoResponse)
      → is_some (lookup (text "SelectFilesForUser") meta_querier) ≡ true
      → w.answers ≡ []
      → Picked id (group (both_rows order w cached prev)) files
      → Succeeds w
          (completed w prev id (taken_rows files w.now))
          (execute_each order meta_querier chunk_querier cached w)
  unfolding execute_each select_files picked merge
  execute_each-Succeeds order w files selects h picks =
      let rows = both_rows order w cached prev in
      let e = Picked-pick id (group rows) files picks in
      let built = build_files_info_response-group (both_rows order w cached prev) in
      let w' = record w { answers = others w.answers } in
      let s =
        subst
          (λ l. Succeeds w' (completed w' prev id l) (
            fill_with meta_querier chunk_querier cached files.0 w.now
              (filler_chunks files.0 files.1) w'))
          (grouped-taken_rows id rows files w.now picks)
          (fill_with-Succeeds files.0 (filler_chunks files.0 files.1) w' (ground arith)) in
      record {
        succeeded = ground (arith, built, s.succeeded);
        tables = ground (arith, built, s.tables);
        answers = ground (arith, built, s.answers);
        now = ground (arith, built, s.now);
        queues = ground (arith, built, s.queues);
      }
