-- ===== src/Supervisors/Executor/Versions.antt =====
-- What the worker leaves in the tables.
use arbokcore.Prelude.{
  ℕ, Text, Option, none, some, Option-cases, List, [], ◌∷◌, ◌++◌, map, ◌≡◌, ◌≢◌, ◌⊎◌, inl, inr,
  refl, ap, subst, arith,
}
use mathlib.Core.List.{append-nil}
use arbokcore.Files.{
  FileMetadata, CacheMetadata, UserFile, FilesWithChunks, FileInfoResponse, status_completed,
  status_failed,
}
use arbokcore.Files.Info.{build_files_info_response}
use arbokcore.Files.Info.Group.{group, build_files_info_response-group}
use arbokcore.Files.Repository.{select_files, update, create_batch}
use arbokcore.Files.Repository.Sql.{Order, join_files, in_ids}
use arbokcore.Files.Repository.Update.{versioned, update-versioned, update_atomic}
use arbokcore.Files.Repository.Batch.{create_batch_atomic, create_batch-now}
use arbokcore.Supervisors.Executor.Taken.{Picked, taken_rows, pick-Picked, grouped-taken_rows}
use arbokcore.Supervisors.Executor.{
  filler, filler_chunks, pick, fill_with, merge, picked, execute_each,
}
use arbokcore.Tokens.Repository.{QueryMapper}
use arbokcore.World.{World, Tables, ok, others, Outcome-cases}

-- The metadata after an update: the rows of both versions are rewritten.
abbrev pub rewritten : World → CacheMetadata → Text → List FileMetadata
rewritten w cached status =
    map (versioned cached.prev_id cached.id status w.now) w.tables.file_metadatas

-- The tables after a merge: both versions are rewritten, and the new one has the missing chunks, or
-- is marked as failed.
abbrev pub Filled : World → CacheMetadata → List UserFile → Tables → Type 0
Filled w cached chunks t =
    (t ≡ record (w.tables) {
      file_metadatas = rewritten w cached status_completed;
      user_files = w.tables.user_files ++ chunks;
    })
    ⊎ (t ≡ record (w.tables) { file_metadatas = rewritten w cached status_failed })

-- An update that follows a batch.
update-after :
    (querier : QueryMapper) (prev : Option Text) (id status : Text) (w w' : World) (t : Tables)
    → (update querier prev id status w').0 ≡ ok tt
    → w'.now ≡ w.now
    → w'.tables ≡ t
    → (update querier prev id status w').1.tables
      ≡ record t { file_metadatas = map (versioned prev id status w.now) t.file_metadatas }
update-after querier prev id status w w' t h n e =
    subst
      (λ (s : Tables).
        (update querier prev id status w').1.tables
        ≡ record s { file_metadatas = map (versioned prev id status w.now) s.file_metadatas })
      e
      (subst
        (λ (now : ℕ). (update querier prev id status w').1.tables ≡ record (w'.tables) {
          file_metadatas = map (versioned prev id status now) w'.tables.file_metadatas;
        })
        n (update-versioned querier prev id status w' h))

pub fill_with-Filled :
    (meta_querier chunk_querier : QueryMapper) (cached : CacheMetadata)
    (this_file : FileInfoResponse) (entries : List (Text × FilesWithChunks)) (w : World)
    → (fill_with meta_querier chunk_querier cached this_file w.now entries w).0 ≡ ok tt
    → Filled w cached
        (map (filler this_file w.now) entries)
        (fill_with meta_querier chunk_querier cached this_file w.now entries w).1.tables
unfolding fill_with
fill_with-Filled mq cq cached this_file [] w h =
    inl (rw append-nil (update-versioned mq cached.prev_id cached.id status_completed w h))
fill_with-Filled mq cq cached this_file (x ∷ xs) w h =
    let chunks = map (filler this_file w.now) (x ∷ xs) in
    let r = create_batch cq chunks w in
    let b = create_batch_atomic cq chunks w in
    let n = create_batch-now cq chunks w in
    elim (Outcome-cases r.0) [
      | inl (u, o) ↦ inl (
          ground (
            arith,
            o,
            update-after mq cached.prev_id cached.id status_completed w r.1
                (record (w.tables) { user_files = w.tables.user_files ++ chunks })
                (ground (arith, o)) n (ground (arith, o, b.1)),
          ))
      | inr (inl (e, o)) ↦ inr (
          ground (
            arith,
            o,
            update-after mq cached.prev_id cached.id status_failed w r.1 w.tables
                (ground (arith, o)) n (ground (arith, o, b.1)),
          ))
      | inr (inr o) ↦ absurd (b.0 o)
    ]

-- The rows of the new version and of the previous one.
abbrev pub both_rows : Order → World → CacheMetadata → Text → List FilesWithChunks
both_rows order w cached prev =
    order (join_files (in_ids (some cached.id ∷ some prev ∷ [])) w.tables)

module _ (order : Order) (meta_querier chunk_querier : QueryMapper) (cached : CacheMetadata)
    (prev : Text) (w : World) (has_prev : cached.prev_id ≡ some prev) where
  -- When the worker returns no error on an upload with a previous version, the rows of both versions
  -- were found, and two files are picked of the first two among them. Either the new version is made
  -- the current one and completed, the previous one is retired, and rows of the new version are added
  -- for the chunks that the previous file has and it lacks, if both have as many; or the two versions
  -- are rewritten in the same way but as failed, and no chunk is added. No other row changes.
  pub execute_each-Filled :
      (execute_each order meta_querier chunk_querier cached w).0 ≡ ok tt
      → (files : FileInfoResponse × FileInfoResponse) × Picked cached.id
          (group (both_rows order w cached prev))
          files
        × Filled w cached
            (taken_rows files w.now)
            (execute_each order meta_querier chunk_querier cached w).1.tables
  unfolding execute_each select_files picked merge
  execute_each-Filled h =
      let rows = both_rows order w cached prev in
      let built = build_files_info_response-group rows in
      let w' = record w { answers = others w.answers } in
      let run = execute_each order meta_querier chunk_querier cached w in
      elim (Option-cases (pick cached.id (group rows))) [
        | inl e ↦ absurd (ground (arith, built))
        | inr (files, e) ↦
            let chunks = filler_chunks files.0 files.1 in
            let t =
              fill_with-Filled meta_querier chunk_querier cached files.0 chunks w'
                (ground (arith, built)) in
            let p = pick-Picked cached.id (group rows) files e in
            (
              files,
              p,
              subst (λ l. Filled w cached l run.1.tables)
                  (grouped-taken_rows cached.id rows files w.now p) (ground (arith, built, t)),
            )
      ]

fill_with-keeps :
    (meta_querier chunk_querier : QueryMapper) (cached : CacheMetadata)
    (this_file : FileInfoResponse) (now : ℕ) (entries : List (Text × FilesWithChunks)) (w : World)
    → (fill_with meta_querier chunk_querier cached this_file now entries w).0 ≢ ok tt
    → (fill_with meta_querier chunk_querier cached this_file now entries w).1.tables.file_metadatas
      ≡ w.tables.file_metadatas
unfolding fill_with
fill_with-keeps mq cq cached this_file now [] w h =
    ap (λ (t : Tables). t.file_metadatas)
      (update_atomic mq cached.prev_id cached.id status_completed w h)
fill_with-keeps mq cq cached this_file now (x ∷ xs) w h =
    let chunks = map (filler this_file now) (x ∷ xs) in
    let r = create_batch cq chunks w in
    let b = create_batch_atomic cq chunks w in
    elim (Outcome-cases r.0) [
      | inl (u, o) ↦
          let k =
            update_atomic mq cached.prev_id cached.id status_completed r.1
              (λ e. h (ground (arith, o, e))) in
          ground (arith, o, k, b.1)
      | inr (inl (e, o)) ↦
          let k =
            update_atomic mq cached.prev_id cached.id status_failed r.1
              (λ e. h (ground (arith, o, e))) in
          ground (arith, o, k, b.1)
      | inr (inr o) ↦ absurd (b.0 o)
    ]

select_files-keeps :
    (order : Order) (querier : QueryMapper) (ids : List (Option Text)) (w : World)
    → (select_files order querier ids w).1.tables ≡ w.tables
unfolding select_files
select_files-keeps order querier ids w = ground arith

picked-keeps :
    (meta_querier chunk_querier : QueryMapper) (cached : CacheMetadata)
    (resps : Option (List FileInfoResponse)) (w : World)
    → (picked meta_querier chunk_querier cached resps w).0 ≢ ok tt
    → (picked meta_querier chunk_querier cached resps w).1.tables.file_metadatas
      ≡ w.tables.file_metadatas
unfolding picked merge
picked-keeps mq cq cached none w h = refl
picked-keeps mq cq cached (some resps) w h = elim (Option-cases (pick cached.id resps)) [
  | inl e ↦ ground arith
  | inr (files, e) ↦
      let k =
        fill_with-keeps mq cq cached files.0 w.now (filler_chunks files.0 files.1) w
          (λ q. h (ground (arith, e, q))) in
      ground (arith, k)
]

-- When the worker returns an error or panics, no row of the metadata has changed.
pub execute_each-keeps :
    (order : Order) (meta_querier chunk_querier : QueryMapper) (cached : CacheMetadata) (w : World)
    → (execute_each order meta_querier chunk_querier cached w).0 ≢ ok tt
    → (execute_each order meta_querier chunk_querier cached w).1.tables.file_metadatas
      ≡ w.tables.file_metadatas
unfolding execute_each
execute_each-keeps order mq cq cached w h = elim (Option-cases cached.prev_id) [
  | inl e ↦
      ground
        (arith, update_atomic mq none cached.id status_completed w (λ q. h (ground (arith, e, q))))
  | inr (prev, e) ↦
      let s = select_files order mq (some cached.id ∷ some prev ∷ []) w in
      let kept = select_files-keeps order mq (some cached.id ∷ some prev ∷ []) w in
      elim (Outcome-cases s.0) [
        | inl (rows, o) ↦
            let k =
              picked-keeps mq cq cached (build_files_info_response (map some rows)) s.1
                (λ q. h (ground (arith, e, o, q))) in
            ground (arith, e, o, k, kept)
        | inr (inl (x, o)) ↦ ground (arith, e, o, kept)
        | inr (inr o) ↦ ground (arith, e, o, kept)
      ]
]
