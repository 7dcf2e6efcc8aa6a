-- ===== src/Routes/Downloading.antt =====
-- The two versions of the download.
use arbokcore.Prelude.{
  map, select, ◌==◌, Text, text, Option, none, some, Option-cases, List, [], ◌∷◌, lookup, ◌≡◌, inl,
  inr, refl, ap, ◌∙◌, arith,
}
use arbokcore.Files.{FileInfoResponse, FilesWithChunks}
use arbokcore.Files.Info.{build_files_info_response}
use arbokcore.Files.Downloads.{download, read_files}
use arbokcore.Files.Downloads.Cache.{Coherent, Coherent-at, download-Agrees}
use arbokcore.Files.Ordered.{
  info_of, found_info, file_info, ordered_urls, with_urls, list_ordered_file_chunks,
}
use arbokcore.Files.Repository.{select_files}
use arbokcore.Files.Repository.Sql.{Order}
use arbokcore.Routes.{send_file, send_ordered, download_with, download_file, download_file_v2}
use arbokcore.Tokens.{Token}
use arbokcore.Tokens.Repository.{QueryMapper, get_query}
use arbokcore.World.Still.{Still, bind-Still}
use arbokcore.World.{
  Go, ◌>>=◌, World, Outcome, Result, value, error, attempt, first, Outcome-cases, bind-attempt-ok,
  bind-attempt-err,
}

-- What the files of a request are read from stays as it was.
record SameFiles {ℓ} {A : Type ℓ} (w : World) (run : Outcome A × World) : Type ℓ where
  answers : w.answers ≡ [] → run.1.answers ≡ []
  cache : run.1.cache ≡ w.cache
  disk : run.1.disk ≡ w.disk

select_files-SameFiles :
    (order : Order) (querier : QueryMapper) (ids : List (Option Text)) (w : World)
    → SameFiles w (select_files order querier ids w)
unfolding select_files get_query
select_files-SameFiles order querier ids w =
    elim (Option-cases (lookup (text "SelectFilesForUser") querier)) [
      | inl e ↦ record {
        answers = λ a. ground (arith, e, a);
        cache = ground (arith, e);
        disk = ground (arith, e);
      }
      | inr (stmt, e) ↦ elim (Option-cases (first w.answers)) [
        | inl b ↦ record {
          answers = λ a. ground (arith, e, a, b);
          cache = ground (arith, e, b);
          disk = ground (arith, e, b);
        }
        | inr (x, b) ↦ record {
          answers = λ a. ground (arith, e, a, b);
          cache = ground (arith, e, b);
          disk = ground (arith, e, b);
        }
      ]
    ]

found_info-Still :
    (file_id : Text) (resps : List FileInfoResponse) → Still (found_info file_id resps)
unfolding found_info
found_info-Still file_id [] w = refl
found_info-Still file_id (resp ∷ resps) w =
    elim (Option-cases (info_of file_id (resp ∷ resps) none)) [
      | inl e ↦ rw (e, found_info) refl
      | inr found ↦ rw (found.1, found_info) refl
    ]

file_info-Still :
    (file_id user_id : Text) (rows : List FilesWithChunks) → Still (file_info file_id user_id rows)
unfolding file_info
file_info-Still file_id user_id rows w =
    elim (Option-cases
      (build_files_info_response (map some (select (λ row. row.user_id == user_id) rows)))) [
        | inl e ↦ rw (e, file_info) refl
        | inr built ↦ rw (built.1, file_info) (found_info-Still file_id built.0 w)
      ]

with_urls-Still : (info : FileInfoResponse) → Still (with_urls info)
unfolding with_urls
with_urls-Still info w = elim (Option-cases (ordered_urls info)) [
  | inl e ↦ rw (e, with_urls) refl
  | inr found ↦ rw (found.1, with_urls) refl
]

list_ordered_file_chunks-SameFiles :
    (order : Order) (querier : QueryMapper) (file_id user_id : Text) (w : World)
    → SameFiles w (list_ordered_file_chunks order querier file_id user_id w)
unfolding list_ordered_file_chunks
list_ordered_file_chunks-SameFiles order querier file_id user_id w =
    let m = select_files order querier (some file_id ∷ []) in
    let same = select_files-SameFiles order querier (some file_id ∷ []) w in
    let run = list_ordered_file_chunks order querier file_id user_id w in
    let still : run.1 ≡ (m w).1 = elim (Outcome-cases (m w).0) [
      | inl (rows, e) ↦
          ap (λ r. r.1) (bind-attempt-ok m _ w e)
          ∙ bind-Still (file_info file_id user_id rows) with_urls
              (file_info-Still file_id user_id rows) with_urls-Still (m w).1
      | inr (inl (x, e)) ↦ ap (λ r. r.1) (bind-attempt-err m _ w e)
      | inr (inr e) ↦ ground (arith, e)
    ] in
    record {
      answers = λ a. ap (λ v. v.answers) still ∙ same.answers a;
      cache = ap (λ v. v.cache) still ∙ same.cache;
      disk = ap (λ v. v.disk) still ∙ same.disk;
    }

send_file-outcome :
    (info : FileInfoResponse) (r : Result Text) (w v : World)
    → w.answers ≡ v.answers
    → (send_file info r w).0 ≡ (send_file info r v).0
unfolding send_file
send_file-outcome info (error e) w v h = refl
send_file-outcome info (value content) w v h = ground (arith, h)

-- Two readers with one outcome.
send_file-same :
    (m n : Go Text) (info : FileInfoResponse) (w : World)
    → (m w).0 ≡ (n w).0
    → (m w).1.answers ≡ (n w).1.answers
    → ((attempt m >>= send_file info) w).0 ≡ ((attempt n >>= send_file info) w).0
send_file-same m n info w h a = elim (Outcome-cases (n w).0) [
  | inl (content, e) ↦
      rw (bind-attempt-ok m (send_file info) w (h ∙ e), bind-attempt-ok n (send_file info) w e)
        (send_file-outcome info (value content) (m w).1 (n w).1 a)
  | inr (inl (x, e)) ↦
      rw (bind-attempt-err m (send_file info) w (h ∙ e), bind-attempt-err n (send_file info) w e)
        (send_file-outcome info (error x) (m w).1 (n w).1 a)
  | inr (inr e) ↦ ground (arith, h, e)
]

-- While the operating system and the driver answer every call, and the cache agrees with the disk,
-- `DownloadFileV2` gives every request the answer of `DownloadFile`, whatever Redis answers.
pub download_file_v2-download_file :
    (order : Order) (querier : QueryMapper) (file_id : Text) (token : Option Token) (w : World)
    → w.answers ≡ []
    → Coherent w
    → (download_file_v2 order querier file_id token w).0
      ≡ (download_file order querier file_id token w).0
unfolding download_file_v2 download_file download_with send_ordered
download_file_v2-download_file order querier file_id none w a h = refl
download_file_v2-download_file order querier file_id (some token) w a h =
    let m = list_ordered_file_chunks order querier file_id token.resource_id in
    let same = list_ordered_file_chunks-SameFiles order querier file_id token.resource_id w in
    elim (Outcome-cases (m w).0) [
      | inr (inl (x, e)) ↦
          rw
            (
              bind-attempt-err m (send_ordered download) w e,
              bind-attempt-err m (send_ordered read_files) w e,
            )
            refl
      | inr (inr e) ↦ ground (arith, e)
      | inl ((urls, info), e) ↦
          rw
            (
              bind-attempt-ok m (send_ordered download) w e,
              bind-attempt-ok m (send_ordered read_files) w e,
            )
            (let agrees =
                download-Agrees info.size urls (m w).1 (same.answers a)
                  (Coherent-at w (m w).1 same.cache same.disk h) in
              send_file-same (download info.size urls) (read_files info.size urls) info (m w).1
                agrees.outcome agrees.answers)
    ]
