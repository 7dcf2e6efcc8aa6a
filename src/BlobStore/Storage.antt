-- ===== src/BlobStore/Storage.antt =====
-- The local file system as a store of chunks.
use arbokcore.Prelude.{Text, [], ◌∷◌, refl}
use arbokcore.Prelude.Int.{ℤ}
use arbokcore.Prelude.Decimal.{show_ℤ}
use arbokcore.BlobStore.{
  BlobStorage, System, write_file, err_not_directory, dir_stat, made, ensure_dir, copied,
  update_chunk,
}
use arbokcore.BlobStore.Quiet.{
  Quiet, pure-IsQuiet, fail-IsQuiet, call-IsQuiet, attempt-IsQuiet, bind-IsQuiet, if-IsQuiet,
}
use arbokcore.World.{Done, Result, value, error, call, attempt}

write_file-IsQuiet : (path content : Text) → Quiet (write_file path content)
write_file-IsQuiet path content w = record { calm = λ h. cc; tables = refl; now = refl }

module _ (os : System) where
  dir_stat-IsQuiet : (path : Text) (r : Result Done) → Quiet (dir_stat os path r)
  unfolding dir_stat
  dir_stat-IsQuiet path (error e) = fail-IsQuiet e
  dir_stat-IsQuiet path (value u) =
      if-IsQuiet (os.is_dir path) _ _ (pure-IsQuiet tt) (fail-IsQuiet err_not_directory)

  made-IsQuiet : (path : Text) (r : Result Done) → Quiet (made os path r)
  unfolding made
  made-IsQuiet path (value u) = pure-IsQuiet tt
  made-IsQuiet path (error e) =
      if-IsQuiet (os.is_exist e) _ _
        (bind-IsQuiet (attempt call) (dir_stat os path) (attempt-IsQuiet call call-IsQuiet)
          (dir_stat-IsQuiet path))
        (fail-IsQuiet e)

  ensure_dir-IsQuiet : (path : Text) → Quiet (ensure_dir os path)
  unfolding ensure_dir
  ensure_dir-IsQuiet path =
      bind-IsQuiet (attempt call) (made os path) (attempt-IsQuiet call call-IsQuiet)
        (made-IsQuiet path)

  copied-IsQuiet : (path content : Text) (r : Result Done) → Quiet (copied os path content r)
  unfolding copied
  copied-IsQuiet path content (error e) =
      bind-IsQuiet (write_file path (os.partly content)) _
        (write_file-IsQuiet path (os.partly content)) (λ u. pure-IsQuiet [])
  copied-IsQuiet path content (value u) =
      bind-IsQuiet (write_file path content) _ (write_file-IsQuiet path content)
        (λ v. pure-IsQuiet path)

  pub update_chunk-IsQuiet :
      (dir_path file_id : Text) (chunk_id : ℤ) (content : Text)
      → Quiet (update_chunk os dir_path file_id chunk_id content)
  unfolding update_chunk
  update_chunk-IsQuiet dir_path file_id chunk_id content =
      let path = os.join_path (dir_path ∷ file_id ∷ show_ℤ chunk_id ∷ []) in
      bind-IsQuiet (ensure_dir os (os.join_path (dir_path ∷ file_id ∷ []))) _
        (ensure_dir-IsQuiet (os.join_path (dir_path ∷ file_id ∷ [])))
        (λ u. bind-IsQuiet call _ call-IsQuiet (λ v.
          bind-IsQuiet (write_file path []) _ (write_file-IsQuiet path []) (λ t.
            bind-IsQuiet (attempt call) (copied os path content) (attempt-IsQuiet call call-IsQuiet)
              (copied-IsQuiet path content))))

  -- `LocalFS` at a directory.
  abbrev pub local_fs : Text → BlobStorage
  local_fs dir_path = record {
    update_chunk = update_chunk os dir_path;
    no_panic = λ f c content w. (update_chunk-IsQuiet dir_path f c content w).calm;
    keeps_tables = λ f c content w. (update_chunk-IsQuiet dir_path f c content w).tables;
    keeps_now = λ f c content w. (update_chunk-IsQuiet dir_path f c content w).now;
  }
