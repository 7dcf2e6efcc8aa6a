-- ===== src/Examples/Reading.antt =====
-- The grouping of rows, the listing of files and the urls of a download, on the sample tables.
use arbokcore.Prelude.{
  ℕ, ◌≤◌, ◌*◌, ◌==◌, text, none, some, [], ◌∷◌, map, length, get_elem?, lookup, ◌≡◌, refl, ltb,
  take, arith, if◌then◌else◌,
}
use arbokcore.Prelude.Int.{pos}
use arbokcore.Prelude.Decimal.{show_ℤ}
use arbokcore.Api.{build_response}
use arbokcore.Files.{FilesWithChunks, FileInfoResponse}
use arbokcore.Files.Chunks.{frontend_chunk_size, calculate_chunks, calculate_chunks-least}
use arbokcore.Files.Info.{build_files_info_response}
use arbokcore.Files.Info.Group.{group, build_files_info_response-group}
use arbokcore.Files.Info.Rows.{last_row}
use arbokcore.Files.Listing.{limit_of, list_files_for_user}
use arbokcore.Files.Listing.Pages.{current_rows, list_files_for_user-page}
use arbokcore.Files.Ordered.{file_info, info_of, ordered_urls, list_ordered_file_chunks}
use arbokcore.Files.Ordered.Urls.{rows_of, url_of, list_ordered_file_chunks-urls}
use arbokcore.Files.Repository.{select_files}
use arbokcore.World.{ok, panic}
use arbokcore.Files.Info.{new_info}
use arbokcore.Prelude.{◌↔◌}
use arbokcore.Files.Repository.Sql.{join_row, join_files, in_ids}
use arbokcore.Examples.Data.{version, chunk_row, two_rows, querier, calm}

calculate_chunks-least_example :
    (k : ℕ) × (calculate_chunks (pos 5000000) ≡ pos k)
    × ((5000000 ≤ 2 * frontend_chunk_size) ↔ (k ≤ 2))
calculate_chunks-least_example = calculate_chunks-least 5000000 2 refl

build_files_info_response-group_example :
    build_files_info_response (map some two_rows) ≡ some (group two_rows)
build_files_info_response-group_example = build_files_info_response-group two_rows

list_files_for_user-page_example :
    (list_files_for_user
      (λ n. n)
      (λ rows. rows)
      querier
      (text "ann")
      (record { offset = pos 0; limit = pos 2 })
      calm).0
    ≡ (if ltb (length (current_rows (λ rows. rows) calm (text "ann") 0)) 2
        then panic
        else ok (
            build_response none (
              some (record {
                files_info = group (take 2 (current_rows (λ rows. rows) calm (text "ann") 0));
                has_more = ltb 2 (length (current_rows (λ rows. rows) calm (text "ann") 0));
              }))))
unfolding lookup ◌==◌ limit_of
list_files_for_user-page_example =
    list_files_for_user-page (λ n. n) (λ rows. rows) querier (text "ann") (pos 2) 0 2 calm refl refl
      refl refl (λ m. omega arith)

-- The rows of the first version, and its entry.
abbrev first_row : FilesWithChunks
first_row = join_row (version (text "v1") none) (chunk_row (text "v1") 0 (text "a"))

abbrev second_row : FilesWithChunks
second_row = join_row (version (text "v1") none) (chunk_row (text "v1") 1 (text "b"))

abbrev entry : FileInfoResponse
entry = record (new_info first_row) { chunks = (text "0", first_row) ∷ (text "1", second_row) ∷ [] }

list_ordered_file_chunks-urls_example :
    (entry.n_chunks ≡ pos 2)
    × (get_elem? (text "a" ∷ text "b" ∷ []) 1
        ≡ some (
            url_of (
              last_row
                (text "v1")
                (show_ℤ (pos 1))
                (rows_of (λ rows. rows) calm (text "v1") (text "ann"))
                none)))
unfolding list_ordered_file_chunks select_files lookup ◌==◌ join_files in_ids
    build_files_info_response show_ℤ file_info info_of ordered_urls
list_ordered_file_chunks-urls_example =
    list_ordered_file_chunks-urls (λ rows. rows) querier (text "v1") (text "ann") calm 1
      {urls = text "a" ∷ text "b" ∷ []} {info = entry} refl (omega arith)
