-- ===== src/Files/Info.antt =====
-- `BuildFilesInfoResponse` of core/files/service.metadata.go. The rows are pointers, so a row may be
-- nil (`none`); the result `none` is a panic: a nil row, or an index out of range.
pub mod Group
pub mod Rows
pub mod Nil
use arbokcore.Prelude.{
  ℕ, suc, ◌+◌, Text, Option, none, some, List, [], ◌∷◌, ◌++◌, Dict, lookup, insert, get_elem?, set,
}
use arbokcore.Prelude.Decimal.{show_ℤ}
use arbokcore.Files.{FilesWithChunks, FileInfoResponse}

pub record BuildState : Type 0 where
  pub files_info : List FileInfoResponse
  pub files_seen_index : Dict ℕ
  pub i : ℕ

abbrev pub version_str : FilesWithChunks → Text
version_str file = show_ℤ file.chunk_id

abbrev pub new_info : FilesWithChunks → FileInfoResponse
new_info file = record {
  id = file.id;
  name = file.filename;
  hash = file.file_hash;
  size = file.file_size;
  file_type = file.file_type;
  current_flag = file.current_flag;
  chunks = [];
  n_chunks = file.n_chunks;
  user_id = file.user_id;
}

-- `f.Chunks[versionStr] = file`
abbrev pub put_chunk : FilesWithChunks → FileInfoResponse → FileInfoResponse
put_chunk file f = record f { chunks = insert (version_str file) file f.chunks }

at_index : FilesWithChunks → BuildState → ℕ → Option FileInfoResponse → Option BuildState
at_index file s array_idx none = none
at_index file s array_idx (some f) =
    some (record s { files_info = set s.files_info array_idx (put_chunk file f) })

seen_at : FilesWithChunks → BuildState → Option ℕ → Option BuildState
unfolding at_index
seen_at file s none = some (record {
  files_info = s.files_info ++ put_chunk file (new_info file) ∷ [];
  files_seen_index = insert file.id s.i s.files_seen_index;
  i = s.i + 1;
})
seen_at file s (some array_idx) = at_index file s array_idx (get_elem? s.files_info array_idx)

build_loop : List (Option FilesWithChunks) → BuildState → Option BuildState
build_loop [] s = some s
build_loop (none ∷ files) s = none
build_loop (some file ∷ files) s = elim (seen_at file s (lookup file.id s.files_seen_index)) [
  | none ↦ none
  | some s' ↦ build_loop files s'
]

unfoldable pub build_files_info_response :
    List (Option FilesWithChunks) → Option (List FileInfoResponse)
unfolding build_loop seen_at lookup insert show_ℤ
build_files_info_response files =
    elim (build_loop files (record { files_info = []; files_seen_index = []; i = 0 })) [
      | none ↦ none
      | some s ↦ some s.files_info
    ]
