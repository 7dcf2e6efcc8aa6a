-- ===== src/Files/Ordered/Urls.antt =====
-- What a download is given: the url of each chunk, from the rows of the user.
use arbokcore.Prelude.{
  ℕ, zero, suc, ◌<◌, Text, text, ◌==◌, eq_iff, Option, none, some, List, [], ◌∷◌, map, Dict, lookup,
  insert, DistinctKeys, insert-DistinctKeys, false, length, get_elem?, replicate, length-replicate,
  select, ◌≡◌, refl, sym, ap, subst, ◌∙◌, arith, Bool-cases, inl, inr,
}
use arbokcore.Prelude.Int.{pos}
use arbokcore.Prelude.Decimal.{show_ℤ}
use arbokcore.Files.{FilesWithChunks, FileInfoResponse}
use arbokcore.Files.Info.{version_str, build_files_info_response}
use arbokcore.Files.Info.Group.{add_row, group_onto, group, build_files_info_response-group}
use arbokcore.Files.Info.Rows.{
  chunk_of, last_row, has_entry, OneEach, build_files_info_response-last_row,
  build_files_info_response-OneEach,
}
use arbokcore.Files.Ordered.{
  info_of, place_all, ordered_urls, found_info, file_info, with_urls, list_ordered_file_chunks,
}
use arbokcore.Files.Ordered.Places.{Keyed, place_all-length, place_all-get}
use arbokcore.Files.Repository.{select_files}
use arbokcore.Files.Repository.Sql.{Order, join_files, in_ids}
use arbokcore.Tokens.Repository.{QueryMapper}
use arbokcore.World.{World, Outcome, ok, err, others}

insert-Keyed :
    (row : FilesWithChunks) (chunks : Dict FilesWithChunks)
    → Keyed chunks
    → Keyed (insert (version_str row) row chunks)
unfolding insert
insert-Keyed row [] k = (refl, tt)
insert-Keyed row ((key, chunk) ∷ chunks) k =
    ground (arith, insert-Keyed row chunks k.1, eq_iff key (version_str row))

-- The chunks of every entry are keyed by their ids, each key once.
abbrev pub Sound : List FileInfoResponse → Type 0
Sound [] = Unit {0}
Sound (f ∷ fs) = DistinctKeys f.chunks × Keyed f.chunks × Sound fs

add_row-Sound :
    (infos : List FileInfoResponse) (row : FilesWithChunks)
    → Sound infos
    → Sound (add_row infos row)
unfolding add_row insert
add_row-Sound [] row s =
    (insert-DistinctKeys (version_str row) row [] tt, insert-Keyed row [] tt, tt)
add_row-Sound (f ∷ fs) row s = elim (Bool-cases (f.id == row.id)) [
  | inl same ↦
      rw same
        (insert-DistinctKeys (version_str row) row f.chunks s.0, insert-Keyed row f.chunks s.1, s.2)
  | inr other ↦ rw other (s.0, s.1, add_row-Sound fs row s.2)
]

pub group_onto-Sound :
    (infos : List FileInfoResponse) (rows : List FilesWithChunks)
    → Sound infos
    → Sound (group_onto infos rows)
unfolding group_onto
group_onto-Sound infos [] s = s
group_onto-Sound infos (row ∷ rows) s =
    group_onto-Sound (add_row infos row) rows (add_row-Sound infos row s)

-- The entry that the loop over the responses keeps.
record IsEntry (file_id : Text) (infos : List FileInfoResponse) (f : FileInfoResponse)
    : Type 0 where
  distinct : DistinctKeys f.chunks
  keyed : Keyed f.chunks
  chunks : (key : Text) → chunk_of file_id key infos ≡ lookup key f.chunks

info_of-absent :
    (file_id : Text) (infos : List FileInfoResponse) (found : Option FileInfoResponse)
    → has_entry file_id infos ≡ false
    → info_of file_id infos found ≡ found
unfolding info_of has_entry
info_of-absent file_id [] found h = refl
info_of-absent file_id (f ∷ fs) found h = ground (arith, info_of-absent file_id fs found)

info_of-IsEntry :
    (file_id : Text) (infos : List FileInfoResponse) (f : FileInfoResponse)
    → OneEach infos
    → Sound infos
    → info_of file_id infos none ≡ some f
    → IsEntry file_id infos f
unfolding info_of chunk_of
info_of-IsEntry file_id [] f o s h = absurd (ground arith)
info_of-IsEntry file_id (g ∷ fs) f o s h = elim (Bool-cases (g.id == file_id)) [
  | inl same ↦
      let alone : has_entry file_id fs ≡ false = ground (arith, o.0, eq_iff g.id file_id) in
      let e : g ≡ f = ground (arith, info_of-absent file_id fs (some g) alone) in
      subst (IsEntry file_id (g ∷ fs)) e
        (record { distinct = s.0; keyed = s.1; chunks = λ key. rw same refl })
  | inr other ↦
      let rest = info_of-IsEntry file_id fs f o.1 s.2 (ground arith) in
      record {
        distinct = rest.distinct;
        keyed = rest.keyed;
        chunks = λ key. rw other (rest.chunks key);
      }
]

abbrev pub url_of : Option FilesWithChunks → Text
url_of none = []
url_of (some chunk) = chunk.chunk_blob_url

get_elem?-replicate : (n i : ℕ) → i < n → get_elem? {A = Text} (replicate n []) i ≡ some []
get_elem?-replicate zero i h = elim h [ ]
get_elem?-replicate (suc n) zero h = refl
get_elem?-replicate (suc n) (suc i) h = get_elem?-replicate n i (omega arith)

-- The rows of a file that belong to the user.
abbrev pub rows_of : Order → World → Text → Text → List FilesWithChunks
rows_of order w file_id user_id =
    select (λ row. row.user_id == user_id)
      (order (join_files (in_ids (some file_id ∷ [])) w.tables))

built-Sound :
    (rows : List FilesWithChunks) (infos : List FileInfoResponse)
    → build_files_info_response (map some rows) ≡ some infos
    → Sound infos
built-Sound rows infos e =
    subst Sound (some_eq (sym (build_files_info_response-group rows) ∙ e))
      (group_onto-Sound [] rows tt)
  where
    some_eq : {a b : List FileInfoResponse} → some a ≡ some b → a ≡ b
    some_eq h = cc

ordered_urls-count :
    (info : FileInfoResponse) {urls : List Text}
    → ordered_urls info ≡ some urls
    → (n : ℕ) × (info.n_chunks ≡ pos n) × (place_all info.chunks (replicate n []) ≡ some urls)
unfolding ordered_urls
ordered_urls-count info h = ground arith

-- The steps that lead to a successful answer.
record Answers (rows : List FilesWithChunks) (file_id : Text) (urls : List Text)
    (info : FileInfoResponse) : Type 0 where
  infos : List FileInfoResponse
  built : build_files_info_response (map some rows) ≡ some infos
  found : info_of file_id infos none ≡ some info
  placed : ordered_urls info ≡ some urls

abbrev or_error : Text → Option FileInfoResponse → World → Outcome FileInfoResponse × World
or_error e none w = (err e, w)
or_error e (some info) w = (ok info, w)

found_info-info_of :
    (file_id : Text) (infos : List FileInfoResponse) (w : World)
    → (e : Text) × (found_info file_id infos w ≡ or_error e (info_of file_id infos none) w)
unfolding found_info
found_info-info_of file_id [] w = (text "file_corrupted:2045:500", unfold info_of in refl)
found_info-info_of file_id (f ∷ fs) w = (text "file_not_found:2046:500", ground arith)

list_ordered_file_chunks-Answers :
    (order : Order) (querier : QueryMapper) (file_id user_id : Text) (w : World) {urls : List Text}
    {info : FileInfoResponse}
    → (list_ordered_file_chunks order querier file_id user_id w).0 ≡ ok (urls, info)
    → Answers (rows_of order w file_id user_id) file_id urls info
unfolding list_ordered_file_chunks select_files file_info with_urls
list_ordered_file_chunks-Answers order querier file_id user_id w {urls} {info} h =
    let rows = rows_of order w file_id user_id in
    let built = build_files_info_response-group rows in
    let (e, f) =
      found_info-info_of file_id (group rows) (record w { answers = others w.answers }) in
    record {
      infos = group rows;
      built = built;
      found = ground (arith, built, f);
      placed = ground (arith, built, f);
    }

-- A successful `ListOrderedFileChunks` returns as many urls as the file counts chunks, and the url
-- at an index is that of the last of the user's rows of the file with this chunk id; it is empty
-- where there is no such row.
pub list_ordered_file_chunks-urls :
    (order : Order) (querier : QueryMapper) (file_id user_id : Text) (w : World) (i : ℕ)
    {urls : List Text} {info : FileInfoResponse}
    → (list_ordered_file_chunks order querier file_id user_id w).0 ≡ ok (urls, info)
    → i < length urls
    → (info.n_chunks ≡ pos (length urls))
      × (get_elem? urls i
          ≡ some
              (url_of (last_row file_id (show_ℤ (pos i)) (rows_of order w file_id user_id) none)))
list_ordered_file_chunks-urls order querier file_id user_id w i {urls} {info} h lt =
    let rows = rows_of order w file_id user_id in
    let a = list_ordered_file_chunks-Answers order querier file_id user_id w h in
    let entry =
      info_of-IsEntry file_id a.infos info
        (build_files_info_response-OneEach rows a.infos a.built).0
        (built-Sound rows a.infos a.built) a.found in
    let (n, count, p) = ordered_urls-count info a.placed in
    let size = place_all-length info.chunks (replicate n []) p ∙ length-replicate n [] in
    (
      count ∙ ap pos (sym size),
      place_all-get info.chunks (replicate n []) i entry.distinct entry.keyed p
          ∙ ground (
            arith,
            get_elem?-replicate n i (omega (arith, size)),
            entry.chunks (show_ℤ (pos i)),
            build_files_info_response-last_row rows a.infos file_id (show_ℤ (pos i)) a.built,
          ),
    )
