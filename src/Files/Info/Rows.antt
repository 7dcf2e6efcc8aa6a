-- ===== src/Files/Info/Rows.antt =====
-- Which rows the grouping of `BuildFilesInfoResponse` keeps, and that it keeps one entry for a file.
use arbokcore.Prelude.{
  Text, ◌==◌, eq_iff, Option, none, some, List, [], ◌∷◌, map, lookup, lookup-insert, Bool, false,
  ◌&&◌, ◌||◌, if◌then◌else◌, Bool-cases, ◌≡◌, refl, sym, ap, ◌∙◌, inl, inr, arith,
}
use arbokcore.Files.{FilesWithChunks, FileInfoResponse}
use arbokcore.Files.Info.{version_str, build_files_info_response}
use arbokcore.Files.Info.Group.{add_row, group_onto, group, build_files_info_response-group}

-- The chunk stored under a file and a key, read from the first entry of the file.
unfoldable pub chunk_of : Text → Text → List FileInfoResponse → Option FilesWithChunks
chunk_of id key [] = none
chunk_of id key (f ∷ fs) =
    let rest = chunk_of id key fs in if f.id == id then lookup key f.chunks else rest

abbrev pub is_chunk : Text → Text → FilesWithChunks → Bool
is_chunk id key row = (row.id == id) && (version_str row == key)

-- The last row of a file with a given chunk id, `best` if there is none.
unfoldable pub last_row :
    Text → Text → List FilesWithChunks → Option FilesWithChunks → Option FilesWithChunks
last_row id key [] best = best
last_row id key (row ∷ rows) best =
    last_row id key rows (if is_chunk id key row then some row else best)

chunk_of-add_row :
    (id key : Text) (infos : List FileInfoResponse) (row : FilesWithChunks)
    → chunk_of id key (add_row infos row)
      ≡ (if is_chunk id key row then some row else chunk_of id key infos)
unfolding chunk_of add_row lookup
chunk_of-add_row id key [] row = ground (arith, lookup-insert (version_str row) key row [])
chunk_of-add_row id key (f ∷ fs) row = ground (
  arith,
  eq_iff f.id row.id,
  eq_iff f.id id,
  eq_iff row.id id,
  lookup-insert (version_str row) key row f.chunks,
  chunk_of-add_row id key fs row,
)

chunk_of-group_onto :
    (id key : Text) (infos : List FileInfoResponse) (rows : List FilesWithChunks)
    → chunk_of id key (group_onto infos rows) ≡ last_row id key rows (chunk_of id key infos)
unfolding group_onto last_row
chunk_of-group_onto id key infos [] = refl
chunk_of-group_onto id key infos (row ∷ rows) =
    chunk_of-group_onto id key (add_row infos row) rows
    ∙ ap (last_row id key rows) (chunk_of-add_row id key infos row)

some_injective : {a b : List FileInfoResponse} → some a ≡ some b → a ≡ b
some_injective h = cc

build_files_info_response-eq :
    (rows : List FilesWithChunks) (infos : List FileInfoResponse)
    → build_files_info_response (map some rows) ≡ some infos
    → group rows ≡ infos
build_files_info_response-eq rows infos e =
    some_injective (sym (build_files_info_response-group rows) ∙ e)

-- In the result of `BuildFilesInfoResponse` the chunk under a file's id and a key is the last row of
-- that file whose chunk id prints as the key; there is none if no row does.
pub build_files_info_response-last_row :
    (rows : List FilesWithChunks) (infos : List FileInfoResponse) (id key : Text)
    → build_files_info_response (map some rows) ≡ some infos
    → chunk_of id key infos ≡ last_row id key rows none
build_files_info_response-last_row rows infos id key e =
    rw (← build_files_info_response-eq rows infos e)
      (chunk_of-group_onto id key [] rows ∙ ap (last_row id key rows) (unfold chunk_of in refl))

-- Whether a file has an entry.
unfoldable pub has_entry : Text → List FileInfoResponse → Bool
has_entry id [] = false
has_entry id (f ∷ fs) = (f.id == id) || has_entry id fs

-- No two entries have the same id.
abbrev pub OneEach : List FileInfoResponse → Type 0
OneEach [] = Unit {0}
OneEach (f ∷ fs) = (has_entry f.id fs ≡ false) × OneEach fs

has_entry-add_row :
    (id : Text) (infos : List FileInfoResponse) (row : FilesWithChunks)
    → has_entry id (add_row infos row) ≡ ((row.id == id) || has_entry id infos)
unfolding has_entry add_row
has_entry-add_row id [] row = refl
has_entry-add_row id (f ∷ fs) row = ground (arith, eq_iff f.id row.id, has_entry-add_row id fs row)

add_row-OneEach :
    (infos : List FileInfoResponse) (row : FilesWithChunks)
    → OneEach infos
    → OneEach (add_row infos row)
unfolding has_entry add_row
add_row-OneEach [] row h = (refl, tt)
add_row-OneEach (f ∷ fs) row h = elim (Bool-cases (f.id == row.id)) [
  | inl same ↦ rw same h
  | inr other ↦ rw other (
    has_entry-add_row f.id fs row ∙ ground (arith, eq_iff f.id row.id, eq_iff row.id f.id),
    add_row-OneEach fs row h.1,
  )
]

group_onto-OneEach :
    (infos : List FileInfoResponse) (rows : List FilesWithChunks)
    → OneEach infos
    → OneEach (group_onto infos rows)
unfolding group_onto
group_onto-OneEach infos [] h = h
group_onto-OneEach infos (row ∷ rows) h =
    group_onto-OneEach (add_row infos row) rows (add_row-OneEach infos row h)

-- Whether a file has a row.
unfoldable pub has_row : Text → List FilesWithChunks → Bool
has_row id [] = false
has_row id (row ∷ rows) = (row.id == id) || has_row id rows

has_entry-group_onto :
    (id : Text) (infos : List FileInfoResponse) (rows : List FilesWithChunks)
    → has_entry id (group_onto infos rows) ≡ (has_entry id infos || has_row id rows)
unfolding group_onto has_row
has_entry-group_onto id infos [] = ground arith
has_entry-group_onto id infos (row ∷ rows) =
    ground (arith, has_entry-group_onto id (add_row infos row) rows, has_entry-add_row id infos row)

-- The result of `BuildFilesInfoResponse` has one entry for each file that has a row, and no other.
pub build_files_info_response-OneEach :
    (rows : List FilesWithChunks) (infos : List FileInfoResponse)
    → build_files_info_response (map some rows) ≡ some infos
    → OneEach infos × ((id : Text) → has_entry id infos ≡ has_row id rows)
build_files_info_response-OneEach rows infos e =
    let same = build_files_info_response-eq rows infos e in
    (
      rw (← same) (group_onto-OneEach [] rows tt),
      (λ id. rw (← same) (has_entry-group_onto id [] rows ∙ unfold has_entry in refl)),
    )
