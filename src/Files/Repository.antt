-- ===== src/Files/Repository.antt =====
-- `MetadataRepository` and `MetadataTokenRepository` of core/files/repository.go, and
-- `UserFileRepository` of core/files/userfiles.service.go, over the tables. A transaction works on
-- its own copy of the tables, which the commit stores; a rollback drops it.
pub mod Sql
pub mod Update
pub mod Batch
use arbokcore.Prelude.{
  ℕ, suc, ◌+◌, ◌-◌, ◌≤◌, Text, text, ◌==◌, Option, none, some, List, [], ◌∷◌, ◌++◌, map, Bool, true,
  false, ltb, leb, if◌then◌else◌, length, select, is_some,
}
use arbokcore.Files.{FileMetadata, UserFile, FilesWithChunks}
use arbokcore.Tokens.{Token}
use arbokcore.Tokens.Repository.{QueryMapper, get_query, create_token_stmt}
use arbokcore.World.{
  World, Tables, Done, Go, Outcome, ok, err, panic, Result, value, error, pure, fail, crash,
  attempt, call, get_tables, put_tables, get_now, ◌>>=◌, ◌>>◌,
}
use arbokcore.Files.Repository.Sql.{
  FindKv, has_all, mark, retire, count_hash, join_files, in_ids, Order,
}

abbrev pub err_stmt_not_found : Text
err_stmt_not_found = text "stmt_not_found"

unfoldable pub create : QueryMapper → FileMetadata → Go FileMetadata
unfolding get_query
create querier metadata = do
  stmt ← get_query querier (text "CreateFileMetadata") (text "query_retriever_failed:2001:500")
  e ← attempt call
  elim e [
    | error x ↦ fail (text "token_generation_failed:2003:500")
    | value u ↦ (do
      t ← get_tables
      put_tables (record t { file_metadatas = t.file_metadatas ++ metadata ∷ [] })
      pure metadata)
  ]

prepared : Result Done → Go Done
prepared (error x) = fail (text "failed to construct prepared stmt")
prepared (value u) = pure tt

unfoldable pub find_by : QueryMapper → List FindKv → Go (List FileMetadata)
unfolding get_query prepared
find_by querier [] = fail (text "clause is not present")
find_by querier (clause ∷ clauses) = do
  stmt ← get_query querier (text "FindBy") err_stmt_not_found
  e ← attempt call
  prepared e
  call
  t ← get_tables
  pure (select (has_all (clause ∷ clauses)) t.file_metadatas)

abbrev pub err_duplicate_file : Text
err_duplicate_file = text "duplicate_file"

-- The two results of `FindByHash`: whether the hash was found, and the error.
unfoldable pub find_by_hash : QueryMapper → Text → Go (Bool × Option Text)
unfolding get_query
find_by_hash querier hash = do
  q ← attempt (get_query querier (text "FindByHash") err_stmt_not_found)
  elim q [
    | error x ↦ pure (false, some x)
    | value stmt ↦ (do
      e ← attempt call
      t ← get_tables
      let found = ltb 0 (count_hash hash t.file_metadatas)
      elim e [
        | error x ↦ pure (false, none)
        | value u ↦ pure (found, (if found then some err_duplicate_file else none))
      ])
  ]

unfoldable pub select_files : Order → QueryMapper → List (Option Text) → Go (List FilesWithChunks)
unfolding get_query
select_files order querier ids = do
  stmt ← get_query querier (text "SelectFilesForUser") err_stmt_not_found
  t ← get_tables
  call
  pure (order (join_files (in_ids ids) t))

-- `tx.Rollback(); return err`
abbrev roll_back {ℓ} : {A : Type ℓ} → Text → Go A
roll_back e = do r ← attempt call; fail e

-- `return tx.Commit()`, which stores the transaction's tables.
abbrev commit : Tables → Go Done
commit t = do call; put_tables t

-- The rest of a transaction after one statement with the answer `e`.
abbrev after {ℓ} : {A : Type ℓ} → Result Done → Go A → Go A
after (error x) rest = roll_back x
after (value u) rest = rest

-- The first statement on a transaction whose `BeginTxx` failed dereferences nil.
begun : Result Done → Go Done
begun (error x) = crash
begun (value u) = pure tt

-- `BeginTxx` returns an error that `Update` does not look at.
unfoldable pub update : QueryMapper → Option Text → Text → Text → Go Done
unfolding get_query begun mark retire
update querier prev_file_id new_file_id upload_status = do
  tx ← attempt call
  stmt ← get_query querier (text "UpdateCurrentFlag") err_stmt_not_found
  begun tx
  e ← attempt call
  after e (do
    t ← get_tables
    let marked = map (mark prev_file_id new_file_id upload_status) t.file_metadatas
    elim prev_file_id [
      | none ↦ commit (record t { file_metadatas = marked })
      | some prev ↦ (do
        now ← get_now
        e' ← attempt call
        after e'
            (commit (record t { file_metadatas = map (retire prev now upload_status) marked })))
    ])

unfoldable pub create_metadata_token : QueryMapper → QueryMapper → FileMetadata → Token → Go Done
unfolding get_query
create_metadata_token meta_querier token_querier metadata token = do
  meta_stmt ← get_query meta_querier (text "CreateFileMetadata") err_stmt_not_found
  token_stmt ← get_query token_querier create_token_stmt err_stmt_not_found
  call
  e ← attempt call
  after e (do
    e' ← attempt call
    after e' (do
      t ← get_tables
      commit (record t {
        file_metadatas = t.file_metadatas ++ metadata ∷ [];
        tokens = t.tokens ++ token ∷ [];
      })))

unfoldable pub create_chunk : QueryMapper → UserFile → Go Done
unfolding get_query
create_chunk querier user_file = do
  stmt ← get_query querier (text "CreateFileChunk") err_stmt_not_found
  call
  t ← get_tables
  put_tables (record t { user_files = t.user_files ++ user_file ∷ [] })

unfoldable pub insert_chunks : List UserFile → Tables → Go Done
insert_chunks [] t = commit t
insert_chunks (chunk ∷ chunks) t = do
  e ← attempt call
  after e (insert_chunks chunks (record t { user_files = t.user_files ++ chunk ∷ [] }))

unfoldable pub create_batch : QueryMapper → List UserFile → Go Done
unfolding get_query
create_batch querier chunks = do
  stmt ← get_query querier (text "CreateFileChunk") err_stmt_not_found
  call
  t ← get_tables
  insert_chunks chunks t
