-- ===== src/Supervisors/Executor/Taken.antt =====
-- Which two files the worker merges, and which chunks the new version takes over.
use mathlib.Core.List.{append-nil, append_assoc}
use arbokcore.Prelude.{
  ℕ, Text, ◌==◌, eq_iff, none, some, List, [], ◌∷◌, ◌++◌, map, Dict, lookup, lookup-insert,
  lookup-cons, ==_refl, insert, DistinctKeys, contains, true, false, not, select, if◌then◌else◌,
  ◌≡◌, ◌≢◌, ◌⊎◌, refl, ap, ◌∙◌, sym, inl, inr, arith, Bool-cases, is_some,
}
use arbokcore.Prelude.Int.{eqb_ℤ}
use arbokcore.Files.{FilesWithChunks, FileInfoResponse, UserFile}
use arbokcore.Files.Info.Group.{group}
use arbokcore.Files.Ordered.Urls.{Sound, group_onto-Sound}
use arbokcore.Supervisors.Executor.{filler, filler_chunks, pick}
use arbokcore.Supervisors.Merge.{rest_loop, rest_of_chunks}

-- A chunk of the previous version as a row of the new one, made now.
abbrev pub taken_over : FileInfoResponse → ℕ → Text × FilesWithChunks → UserFile
taken_over this_file now (key, chunk) = record {
  user_id = this_file.user_id;
  file_id = this_file.id;
  chunk_id = chunk.chunk_id;
  chunk_blob_url = chunk.chunk_blob_url;
  chunk_hash = chunk.chunk_hash;
  next_chunk_id = chunk.next_chunk_id;
  created_at = now;
  updated_at = now;
}

-- The chunks of the previous version whose keys the new one lacks.
abbrev pub lacking : FileInfoResponse → FileInfoResponse → Dict FilesWithChunks
lacking this_file prev_file =
    select (λ (entry : Text × FilesWithChunks). not (contains entry.0 this_file.chunks))
      prev_file.chunks

-- The rows that the new version takes over: none where the two do not have as many chunks.
abbrev pub taken_rows : FileInfoResponse × FileInfoResponse → ℕ → List UserFile
taken_rows (this_file, prev_file) now =
    if eqb_ℤ this_file.n_chunks prev_file.n_chunks
    then map (taken_over this_file now) (lacking this_file prev_file)
    else []

-- Of the first two files found, the one with the id and the other one; without the id, the second
-- and the first.
abbrev pub Picked : Text → List FileInfoResponse → FileInfoResponse × FileInfoResponse → Type 0
Picked id infos (this_file, prev_file) =
    (rest : List FileInfoResponse) × (((infos ≡ this_file ∷ prev_file ∷ rest) × (this_file.id ≡ id))
      ⊎ ((infos ≡ prev_file ∷ this_file ∷ rest) × (prev_file.id ≢ id)))

pub pick-Picked :
    (id : Text) (infos : List FileInfoResponse) (files : FileInfoResponse × FileInfoResponse)
    → pick id infos ≡ some files
    → Picked id infos files
unfolding pick
pick-Picked id [] files h = absurd (ground arith)
pick-Picked id (a ∷ []) files h = absurd (ground arith)
pick-Picked id (a ∷ b ∷ rest) files h = elim (Bool-cases (a.id == id)) [
  | inl same ↦
      let e : files ≡ (a, b) = ground arith in rw e (rest, inl (refl, (eq_iff a.id id).0 same))
  | inr other ↦
      let e : files ≡ (b, a) = ground arith in
      rw e (rest, inr (refl, λ q. ground (arith, (eq_iff a.id id).1 q)))
]

pub Picked-pick :
    (id : Text) (infos : List FileInfoResponse) (files : FileInfoResponse × FileInfoResponse)
    → Picked id infos files
    → pick id infos ≡ some files
unfolding pick
Picked-pick id infos files (rest, inl (e, same)) = rw (e, (eq_iff files.0.id id).1 same) refl
Picked-pick id infos files (rest, inr (e, other)) =
    let n : (files.1.id == id) ≡ false = ground (arith, eq_iff files.1.id id) in rw (e, n) refl

insert-new :
    (key : Text) (chunk : FilesWithChunks) (chunks : Dict FilesWithChunks)
    → lookup key chunks ≡ none
    → insert key chunk chunks ≡ chunks ++ (key, chunk) ∷ []
unfolding insert lookup
insert-new key chunk [] h = refl
insert-new key chunk ((k, c) ∷ chunks) h = ground (arith, insert-new key chunk chunks)

rest_loop-lacking :
    (this prev matched : Dict FilesWithChunks)
    → DistinctKeys prev
    → ((key : Text) → is_some (lookup key prev) ≡ true → lookup key matched ≡ none)
    → rest_loop this prev matched
      ≡ matched ++ select (λ (entry : Text × FilesWithChunks). not (contains entry.0 this)) prev
unfolding rest_loop
rest_loop-lacking this [] matched d h = sym (append-nil matched)
rest_loop-lacking this ((id, chunk) ∷ prev) matched d h = elim (Bool-cases (contains id this)) [
  | inl old ↦ rw old (
      rest_loop-lacking this prev matched d.1
        λ key q. h key (unfold lookup in ground (arith, lookup-cons id key chunk prev)))
  | inr new ↦
      let fresh =
        h id (unfold lookup in ground (arith, lookup-cons id id chunk prev, ==_refl id)) in
      rw new (
        rest_loop-lacking this prev (insert id chunk matched) d.1 (λ key q. ground (
          arith,
          d.0,
          eq_iff id key,
          lookup-cons id key chunk prev,
          lookup-insert id key chunk matched,
          h key,
        ))
        ∙ (ap
              (λ l.
                l ++ select (λ (entry : Text × FilesWithChunks). not (contains entry.0 this)) prev)
              (insert-new id chunk matched fresh)
            ∙ append_assoc matched ((id, chunk) ∷ [])
                (select (λ (entry : Text × FilesWithChunks). not (contains entry.0 this)) prev)))
]

map-taken_over :
    (this_file : FileInfoResponse) (now : ℕ) (entries : Dict FilesWithChunks)
    → map (filler this_file now) entries ≡ map (taken_over this_file now) entries
map-taken_over this_file now [] = refl
map-taken_over this_file now ((key, chunk) ∷ entries) =
    ap (λ l. taken_over this_file now (key, chunk) ∷ l) (map-taken_over this_file now entries)

-- The rows that the worker adds for the new version are the ones that it takes over.
filler-taken_rows :
    (files : FileInfoResponse × FileInfoResponse) (now : ℕ)
    → DistinctKeys files.1.chunks
    → map (filler files.0 now) (filler_chunks files.0 files.1) ≡ taken_rows files now
unfolding filler_chunks rest_of_chunks
filler-taken_rows (this_file, prev_file) now d =
    elim (Bool-cases (eqb_ℤ this_file.n_chunks prev_file.n_chunks)) [
      | inl same ↦ rw same (
          ap (map (filler this_file now)) (
            rest_loop-lacking this_file.chunks prev_file.chunks [] d
              (λ key q. unfold lookup in refl))
          ∙ map-taken_over this_file now (lacking this_file prev_file))
      | inr other ↦ rw other refl
    ]

Picked-DistinctKeys :
    (id : Text) (infos : List FileInfoResponse) (files : FileInfoResponse × FileInfoResponse)
    → Sound infos
    → Picked id infos files
    → DistinctKeys files.1.chunks
Picked-DistinctKeys id infos files s (rest, inl (e, same)) = (rw e at s).2.0
Picked-DistinctKeys id infos files s (rest, inr (e, other)) = (rw e at s).0

-- The same for two files that are picked from grouped rows.
pub grouped-taken_rows :
    (id : Text) (rows : List FilesWithChunks) (files : FileInfoResponse × FileInfoResponse)
    (now : ℕ)
    → Picked id (group rows) files
    → map (filler files.0 now) (filler_chunks files.0 files.1) ≡ taken_rows files now
grouped-taken_rows id rows files now p =
    filler-taken_rows files now
      (Picked-DistinctKeys id (group rows) files (group_onto-Sound [] rows tt) p)
