-- ===== src/Files/Info/Group.antt =====
-- The index map of `BuildFilesInfoResponse` against a plain grouping of the rows by file.
use arbokcore.Prelude.{
  ℕ, zero, suc, ◌+◌, Text, ◌==◌, eq_iff, Option, none, some, Option-cases, List, [], ◌∷◌, ◌++◌, map,
  lookup, insert, lookup-insert, get_elem?, set, length, length-append, length-set, if◌then◌else◌,
  Bool-cases, ◌≡◌, refl, sym, ap, ◌∙◌, inl, inr, arith,
}
use arbokcore.Prelude.Decimal.{show_ℤ}
use arbokcore.Files.{FilesWithChunks, FileInfoResponse}
use arbokcore.Files.Info.{
  BuildState, new_info, put_chunk, at_index, seen_at, build_loop, build_files_info_response,
}

-- The entry that the first row of a file opens.
abbrev pub opened : FilesWithChunks → FileInfoResponse
opened row = record {
  id = row.id;
  name = row.filename;
  hash = row.file_hash;
  size = row.file_size;
  file_type = row.file_type;
  current_flag = row.current_flag;
  chunks = (show_ℤ row.chunk_id, row) ∷ [];
  n_chunks = row.n_chunks;
  user_id = row.user_id;
}

-- The entry of a file with one more row, which replaces an earlier one of the same chunk.
abbrev pub joined_by : FilesWithChunks → FileInfoResponse → FileInfoResponse
joined_by row f = record {
  id = f.id;
  name = f.name;
  hash = f.hash;
  size = f.size;
  file_type = f.file_type;
  current_flag = f.current_flag;
  chunks = insert (show_ℤ row.chunk_id) row f.chunks;
  n_chunks = f.n_chunks;
  user_id = f.user_id;
}

-- A row joins the entry of its file, or opens a new entry at the end.
unfoldable pub add_row : List FileInfoResponse → FilesWithChunks → List FileInfoResponse
add_row [] row = opened row ∷ []
add_row (f ∷ fs) row =
    let rest = add_row fs row in if f.id == row.id then joined_by row f ∷ fs else f ∷ rest

unfoldable pub group_onto : List FileInfoResponse → List FilesWithChunks → List FileInfoResponse
group_onto infos [] = infos
group_onto infos (row ∷ rows) = group_onto (add_row infos row) rows

abbrev pub group : List FilesWithChunks → List FileInfoResponse
group rows = group_onto [] rows

abbrev succ? : Option ℕ → Option ℕ
succ? none = none
succ? (some n) = some (suc n)

position : Text → List FileInfoResponse → Option ℕ
position k [] = none
position k (f ∷ fs) = let rest = position k fs in if f.id == k then some 0 else succ? rest

-- What the map of seen files stands for.
record Indexes (s : BuildState) : Type 0 where
  count : s.i ≡ length s.files_info
  seen : (k : Text) → lookup k s.files_seen_index ≡ position k s.files_info

add_row-new :
    (infos : List FileInfoResponse) (row : FilesWithChunks)
    → position row.id infos ≡ none
    → add_row infos row ≡ infos ++ put_chunk row (new_info row) ∷ []
unfolding position add_row insert
add_row-new [] row h = refl
add_row-new (f ∷ fs) row h = ground (arith, add_row-new fs row)

position-append :
    (k : Text) (infos : List FileInfoResponse) (f : FileInfoResponse)
    → position f.id infos ≡ none
    → position k (infos ++ f ∷ []) ≡ (if f.id == k then some (length infos) else position k infos)
unfolding position
position-append k [] f h = refl
position-append k (g ∷ fs) f h =
    ground (arith, position-append k fs f, eq_iff g.id k, eq_iff f.id k, eq_iff g.id f.id)

succ?-ne-zero : (o : Option ℕ) → succ? o ≡ some zero → ⊥
succ?-ne-zero o h = ground arith

succ?-injective : (o : Option ℕ) {n : ℕ} → succ? o ≡ some (suc n) → o ≡ some n
succ?-injective o h = ground arith

zero-ne-suc : {n : ℕ} → some 0 ≡ some (suc n) → ⊥
zero-ne-suc h = ground arith

add_row-old :
    (infos : List FileInfoResponse) (row : FilesWithChunks) (n : ℕ)
    → position row.id infos ≡ some n
    → (f : FileInfoResponse) × (get_elem? infos n ≡ some f)
      × (add_row infos row ≡ set infos n (put_chunk row f))
unfolding position add_row
add_row-old [] row n h = cc
add_row-old (f ∷ fs) row zero h = elim (Bool-cases (f.id == row.id)) [
  | inl same ↦ (f, refl, rw same)
  | inr other ↦ absurd (succ?-ne-zero (position row.id fs) (rw other at h))
]
add_row-old (f ∷ fs) row (suc n) h = elim (Bool-cases (f.id == row.id)) [
  | inl same ↦ absurd (zero-ne-suc (rw same at h))
  | inr other ↦
      let (g, at, e) =
        add_row-old fs row n (succ?-injective (position row.id fs) (rw other at h)) in
      (g, at, rw other (ap (λ t. f ∷ t) e))
]

position-add_row :
    (k : Text) (infos : List FileInfoResponse) (row : FilesWithChunks) (n : ℕ)
    → position row.id infos ≡ some n
    → position k (add_row infos row) ≡ position k infos
unfolding position add_row
position-add_row k [] row n h = cc
position-add_row k (f ∷ fs) row zero h = ground (arith, eq_iff f.id row.id)
position-add_row k (f ∷ fs) row (suc n) h =
    ground (arith, eq_iff f.id row.id, position-add_row k fs row n)

length-add_row-old :
    (infos : List FileInfoResponse) (row : FilesWithChunks) (n : ℕ)
    → position row.id infos ≡ some n
    → length (add_row infos row) ≡ length infos
length-add_row-old infos row n h =
    let (f, at, e) = add_row-old infos row n h in rw e (length-set infos n (put_chunk row f))

-- One row, at an entry that is there.
seen_at-old :
    (s : BuildState) (row : FilesWithChunks) (n : ℕ)
    → Indexes s
    → position row.id s.files_info ≡ some n
    → (s' : BuildState) × (seen_at row s (some n) ≡ some s')
      × Indexes s'
      × (s'.files_info ≡ add_row s.files_info row)
unfolding seen_at
seen_at-old s row n v h =
    let (f, at, e) = add_row-old s.files_info row n h in
    (
      record s { files_info = add_row s.files_info row },
      rw (at, at_index) (rw e refl),
      record {
        count = v.count ∙ sym (length-add_row-old s.files_info row n h);
        seen = λ k. v.seen k ∙ sym (position-add_row k s.files_info row n h);
      },
      refl,
    )

-- One row, at a file that was not seen.
seen_at-new :
    (s : BuildState) (row : FilesWithChunks)
    → Indexes s
    → position row.id s.files_info ≡ none
    → (s' : BuildState) × (seen_at row s none ≡ some s')
      × Indexes s'
      × (s'.files_info ≡ add_row s.files_info row)
unfolding seen_at
seen_at-new s row v h =
    let entry = put_chunk row (new_info row) in
    (
      record {
        files_info = s.files_info ++ entry ∷ [];
        files_seen_index = insert row.id s.i s.files_seen_index;
        i = s.i + 1;
      },
      refl,
      record {
        count = omega (arith, v.count, length-append s.files_info (entry ∷ []));
        seen = λ k.
            lookup-insert row.id k s.i s.files_seen_index
            ∙ (ground (arith, v.count, v.seen k) ∙ sym (position-append k s.files_info entry h));
      },
      sym (add_row-new s.files_info row h),
    )

build_loop-group_onto :
    (rows : List FilesWithChunks) (s : BuildState)
    → Indexes s
    → (s' : BuildState) × (build_loop (map some rows) s ≡ some s')
      × (s'.files_info ≡ group_onto s.files_info rows)
unfolding build_loop group_onto
build_loop-group_onto [] s v = (s, refl, refl)
build_loop-group_onto (row ∷ rows) s v = elim (Option-cases (position row.id s.files_info)) [
  | inl new ↦
      let (s', e, v', i) = seen_at-new s row v new in
      let (t, f, j) = build_loop-group_onto rows s' v' in
      (t, rw (v.seen row.id ∙ new, e, build_loop) f, rw (← i) j)
  | inr (n, old) ↦
      let (s', e, v', i) = seen_at-old s row n v old in
      let (t, f, j) = build_loop-group_onto rows s' v' in
      (t, rw (v.seen row.id ∙ old, e, build_loop) f, rw (← i) j)
]

empty-Indexes : Indexes (record { files_info = []; files_seen_index = []; i = 0 })
unfolding position lookup
empty-Indexes = record { count = refl; seen = λ k. refl }

-- `BuildFilesInfoResponse` of rows of which none is nil never panics, and its result is the rows
-- grouped by file: the files in the order of their first rows, each with what its first row says of
-- it and with its rows by the number of the chunk, a later one in place of an earlier one.
pub build_files_info_response-group :
    (rows : List FilesWithChunks) → build_files_info_response (map some rows) ≡ some (group rows)
unfolding build_files_info_response
build_files_info_response-group rows =
    let (s, e, i) =
      build_loop-group_onto rows (record { files_info = []; files_seen_index = []; i = 0 })
        empty-Indexes in
    rw (e, build_files_info_response) (ap some i)
