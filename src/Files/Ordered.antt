-- ===== src/Files/Ordered.antt =====
-- `GetFileChunks` and `ListOrderedFileChunks` of core/files/service.metadata.go.
pub mod Places
pub mod Urls
use arbokcore.Prelude.{
  ℕ, zero, suc, ◌+◌, ◌<◌, Text, text, ◌==◌, Option, none, some, List, [], ◌∷◌, ◌++◌, map, Dict,
  Bool, true, false, ltb, if◌then◌else◌, length, set, replicate, select,
}
use arbokcore.Prelude.Int.{ℤ, pos, negsuc}
use arbokcore.Files.{FilesWithChunks, FileInfoResponse}
use arbokcore.Files.Info.{build_files_info_response}
use arbokcore.Files.Repository.{select_files}
use arbokcore.Files.Repository.Sql.{Order}
use arbokcore.Tokens.Repository.{QueryMapper}
use arbokcore.World.{
  World, Done, Go, Outcome, ok, err, panic, Result, value, error, pure, fail, crash, attempt, ◌>>=◌,
  ◌>>◌,
}

unfoldable pub get_file_chunks : Order → QueryMapper → Text → Go FilesWithChunks
get_file_chunks order querier file_id = do
  r ← attempt (select_files order querier (some file_id ∷ []))
  elim r [
    | error e ↦ fail (text "internal_error:2025:500")
    | value rows ↦ elim rows [ [] ↦ fail (text "not_found:2027:404") | row ∷ rest ↦ pure row ]
  ]

-- The loop over the responses keeps the last one with the id.
unfoldable pub info_of :
    Text → List FileInfoResponse → Option FileInfoResponse → Option FileInfoResponse
info_of file_id [] found = found
info_of file_id (resp ∷ resps) found =
    info_of file_id resps (if resp.id == file_id then some resp else found)

-- `chunks[i] = url`, `none` out of range.
unfoldable pub place_at : ℤ → Text → List Text → Option (List Text)
place_at (pos i) url urls = if ltb i (length urls) then some (set urls i url) else none
place_at (negsuc i) url urls = none

abbrev pub place : FilesWithChunks → List Text → Option (List Text)
place chunk urls = place_at chunk.chunk_id chunk.chunk_blob_url urls

unfoldable pub place_all : Dict FilesWithChunks → List Text → Option (List Text)
place_all [] urls = some urls
place_all ((key, chunk) ∷ chunks) urls = elim (place chunk urls) [
  | none ↦ none
  | some urls' ↦ place_all chunks urls'
]

-- `make([]string, n)` panics at a negative n.
unfoldable pub ordered_urls : FileInfoResponse → Option (List Text)
unfolding place_all place_at
ordered_urls info = elim info.n_chunks [
  | pos n ↦ place_all info.chunks (replicate n [])
  | negsuc n ↦ none
]

unfoldable pub found_info : Text → List FileInfoResponse → Go FileInfoResponse
found_info file_id [] = fail (text "file_corrupted:2045:500")
found_info file_id (resp ∷ resps) = elim (info_of file_id (resp ∷ resps) none) [
  | none ↦ fail (text "file_not_found:2046:500")
  | some info ↦ pure info
]

unfoldable pub file_info : Text → Text → List FilesWithChunks → Go FileInfoResponse
unfolding found_info
file_info file_id user_id rows =
    elim (build_files_info_response (map some (select (λ row. row.user_id == user_id) rows))) [
      | none ↦ crash
      | some infos ↦ found_info file_id infos
    ]

unfoldable pub with_urls : FileInfoResponse → Go (List Text × FileInfoResponse)
with_urls info = elim (ordered_urls info) [ none ↦ crash | some urls ↦ pure (urls, info) ]

unfoldable pub list_ordered_file_chunks :
    Order → QueryMapper → Text → Text → Go (List Text × FileInfoResponse)
unfolding with_urls
list_ordered_file_chunks order querier file_id user_id = do
  r ← attempt (select_files order querier (some file_id ∷ []))
  elim r [
    | error e ↦ fail (text "internal_error:2025:500")
    | value rows ↦ (do info ← file_info file_id user_id rows; with_urls info)
  ]
