-- ===== src/Files/Repository/Batch.antt =====
-- All or nothing: `CreateBatch` and `CreateMetadataToken`.
use arbokcore.Prelude.{List, [], ◌∷◌, ◌++◌, ◌≡◌, ◌≢◌, inl, inr, arith, Option-cases}
use mathlib.Core.List.{append_assoc, append-nil}
use arbokcore.Files.{FileMetadata, UserFile}
use arbokcore.World.{World, Tables, Done, Outcome, panic, first, others, if_ok}
use arbokcore.Tokens.{Token}
use arbokcore.Tokens.Repository.{QueryMapper}
use arbokcore.Files.Repository.{create_batch, insert_chunks, create_metadata_token}

-- An outcome that is no panic, and the tables that go with it.
record Transacts (r : Outcome Done × World) (done undone : Tables) : Type 0 where
  sound : r.0 ≢ panic
  tables : r.1.tables ≡ if_ok r.0 done undone

insert_chunks-Transacts :
    (chunks : List UserFile) (t : Tables) (w : World)
    → Transacts
        (insert_chunks chunks t w)
        (record t { user_files = t.user_files ++ chunks })
        w.tables
unfolding insert_chunks
insert_chunks-Transacts [] t w = rw append-nil (ground arith)
insert_chunks-Transacts (chunk ∷ chunks) t w =
    let ih =
      insert_chunks-Transacts chunks (record t { user_files = t.user_files ++ chunk ∷ [] })
        (record w { answers = others w.answers }) in
    elim (Option-cases (first w.answers)) [
      | inl fine ↦
          ground (arith, ih.sound, ih.tables, append_assoc t.user_files (chunk ∷ []) chunks)
      | inr (x, e) ↦ ground arith
    ]

insert_chunks-now :
    (chunks : List UserFile) (t : Tables) (w : World) → (insert_chunks chunks t w).1.now ≡ w.now
unfolding insert_chunks
insert_chunks-now [] t w = ground arith
insert_chunks-now (chunk ∷ chunks) t w = ground (
  arith,
  insert_chunks-now chunks (record t { user_files = t.user_files ++ chunk ∷ [] })
      (record w { answers = others w.answers }),
)

pub create_batch-now :
    (querier : QueryMapper) (chunks : List UserFile) (w : World)
    → (create_batch querier chunks w).1.now ≡ w.now
unfolding create_batch
create_batch-now querier chunks w =
    ground (arith, insert_chunks-now chunks w.tables (record w { answers = others w.answers }))

-- `CreateBatch` adds every chunk in order if it returns no error, and none of them if it returns
-- one; it does not panic, and touches no other table.
pub create_batch_atomic :
    (querier : QueryMapper) (chunks : List UserFile) (w : World)
    → ((create_batch querier chunks w).0 ≢ panic)
      × ((create_batch querier chunks w).1.tables
          ≡ if_ok
              (create_batch querier chunks w).0
              (record (w.tables) { user_files = w.tables.user_files ++ chunks })
              w.tables)
unfolding create_batch
create_batch_atomic querier chunks w =
    let rest = insert_chunks-Transacts chunks w.tables (record w { answers = others w.answers }) in
    (ground (arith, rest.sound), ground (arith, rest.tables))

-- `CreateMetadataToken` adds both rows if it returns no error, and neither if it returns one; it
-- does not panic.
pub create_metadata_token_atomic :
    (meta_querier token_querier : QueryMapper) (metadata : FileMetadata) (token : Token) (w : World)
    → ((create_metadata_token meta_querier token_querier metadata token w).0 ≢ panic)
      × ((create_metadata_token meta_querier token_querier metadata token w).1.tables
          ≡ if_ok
              (create_metadata_token meta_querier token_querier metadata token w).0
              (record (w.tables) {
                file_metadatas = w.tables.file_metadatas ++ metadata ∷ [];
                tokens = w.tables.tokens ++ token ∷ [];
              })
              w.tables)
unfolding create_metadata_token
create_metadata_token_atomic meta_querier token_querier metadata token w =
    (ground arith, ground arith)
