-- ===== src/BlobStore.antt =====
-- pkg/blobstore/localfs.go: chunks stored as files under a directory.
pub mod Quiet
pub mod Storage
use arbokcore.Prelude.{
  ℕ, zero, suc, Text, text, ◌==◌, Option, none, some, List, [], ◌∷◌, ◌++◌, insert, Bool, true,
  false, eqb, if◌then◌else◌, length, ◌≡◌, ◌≢◌,
}
use arbokcore.Prelude.Int.{ℤ, pos}
use arbokcore.Prelude.Decimal.{show_ℤ}
use arbokcore.World.{
  World, Tables, Done, Go, Outcome, ok, err, panic, Result, value, error, pure, fail, attempt, call,
  ◌>>=◌, ◌>>◌,
}

-- The interface that the chunk service uses, with what the service relies on.
pub record BlobStorage : Type 0 where
  pub update_chunk : Text → ℤ → Text → Go Text
  pub no_panic :
      (file_id : Text) (chunk_id : ℤ) (content : Text) (w : World)
      → (update_chunk file_id chunk_id content w).0 ≢ panic
  pub keeps_tables :
      (file_id : Text) (chunk_id : ℤ) (content : Text) (w : World)
      → (update_chunk file_id chunk_id content w).1.tables ≡ w.tables
  pub keeps_now :
      (file_id : Text) (chunk_id : ℤ) (content : Text) (w : World)
      → (update_chunk file_id chunk_id content w).1.now ≡ w.now

pub record ChunkedFile : Type 0 where
  pub content : Text
  pub chunk_id : ℤ
  pub chunk_path : Text

abbrev pub err_not_directory : Text
err_not_directory = text "not_a_directory"

abbrev pub err_file_upload : Text
err_file_upload = text "file_upload_failed"

-- os.Create: a file that is there is emptied.
abbrev pub write_file : Text → Text → Go Done
write_file path content w = (ok tt, record w { disk = insert path content w.disk })

-- The operating system: `filepath.Join`, what `os.IsExist` says of an error, whether a path is a
-- directory, and what a copy that fails has written.
pub record System : Type 0 where
  pub join_path : List Text → Text
  pub is_exist : Text → Bool
  pub is_dir : Text → Bool
  pub partly : Text → Text

module _ (os : System) where
  unfoldable pub dir_stat : Text → Result Done → Go Done
  dir_stat path (error e) = fail e
  dir_stat path (value u) = if os.is_dir path then pure tt else fail err_not_directory

  unfoldable pub made : Text → Result Done → Go Done
  made path (value u) = pure tt
  made path (error e) = if os.is_exist e then (do s ← attempt call; dir_stat path s) else fail e

  unfoldable pub ensure_dir : Text → Go Done
  unfolding made dir_stat
  ensure_dir resolved_path = do r ← attempt call; made resolved_path r

  -- A copy that fails is not reported: the path is empty, and so is the error.
  unfoldable pub copied : Text → Text → Result Done → Go Text
  copied path content (error e) = do write_file path (os.partly content); pure []
  copied path content (value u) = do write_file path content; pure path

  unfoldable pub update_chunk : Text → Text → ℤ → Text → Go Text
  unfolding ensure_dir copied
  update_chunk dir_path file_id chunk_id content = do
    ensure_dir (os.join_path (dir_path ∷ file_id ∷ []))
    call
    write_file (os.join_path (dir_path ∷ file_id ∷ show_ℤ chunk_id ∷ [])) []
    r ← attempt call
    copied (os.join_path (dir_path ∷ file_id ∷ show_ℤ chunk_id ∷ [])) content r

  stored : ℕ → ChunkedFile → Result Text → List ChunkedFile → List ChunkedFile
  stored i chunk (error e) rest = rest
  stored i chunk (value path) rest =
      record { content = chunk.content; chunk_id = pos i; chunk_path = path } ∷ rest

  -- The goroutines, one after the other; what the channel has at the end.
  unfoldable pub send_chunks : Text → Text → ℕ → List ChunkedFile → Go (List ChunkedFile)
  unfolding stored
  send_chunks dir_path file_id i [] = pure []
  send_chunks dir_path file_id i (chunk ∷ chunks) = do
    r ← attempt (update_chunk dir_path file_id chunk.chunk_id chunk.content)
    rest ← send_chunks dir_path file_id (suc i) chunks
    pure (stored i chunk r rest)

  unfoldable pub batch_create_chunk : Text → Text → List ChunkedFile → Go (List ChunkedFile)
  batch_create_chunk dir_path file_id chunks = do
    chunk_data ← send_chunks dir_path file_id 0 chunks
    if eqb (length chunk_data) (length chunks) then pure chunk_data else fail err_file_upload
