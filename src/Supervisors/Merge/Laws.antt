-- ===== src/Supervisors/Merge/Laws.antt =====
-- What the filler chunks and the reconstructed file hold, key by key.
use arbokcore.Prelude.{
  Text, eq_iff, none, [], ◌∷◌, Dict, lookup, insert, lookup-insert, lookup-cons, DistinctKeys,
  insert-DistinctKeys, contains, or_else, if◌then◌else◌, ◌≡◌, refl, ◌∙◌, arith, Bool-cases, inl,
  inr,
}
use arbokcore.Files.{FilesWithChunks, FileInfoResponse}
use arbokcore.Supervisors.Merge.{rest_loop, rest_of_chunks, insert_all, reconstruct_chunks}

lookup-rest_loop :
    (key : Text) (this prev matched : Dict FilesWithChunks)
    → DistinctKeys prev
    → lookup key (rest_loop this prev matched) ≡ (
        if contains key this
        then lookup key matched
        else or_else (lookup key prev) (lookup key matched))
unfolding rest_loop
lookup-rest_loop key this [] matched d = unfold lookup in ground arith
lookup-rest_loop key this ((id, chunk) ∷ prev) matched d = ground (
  arith,
  eq_iff id key,
  lookup-cons id key chunk prev,
  lookup-insert id key chunk matched,
  lookup-rest_loop key this prev (if contains id this then matched else insert id chunk matched)
      d.1,
)

rest_loop-DistinctKeys :
    (this prev matched : Dict FilesWithChunks)
    → DistinctKeys matched
    → DistinctKeys (rest_loop this prev matched)
unfolding rest_loop
rest_loop-DistinctKeys this [] matched d = d
rest_loop-DistinctKeys this ((id, chunk) ∷ prev) matched d = elim (Bool-cases (contains id this)) [
  | inl old ↦ rw (old) (rest_loop-DistinctKeys this prev matched d)
  | inr new ↦ rw (new) (
      rest_loop-DistinctKeys this prev (insert id chunk matched)
        (insert-DistinctKeys id chunk matched d))
]

-- Where the previous file's keys are distinct, `RestOfChunks` holds at each key the previous file's
-- chunk if this file lacks the key, and nothing otherwise.
pub lookup-rest_of_chunks :
    (this_file prev_file : FileInfoResponse) (key : Text)
    → DistinctKeys prev_file.chunks
    → lookup key (rest_of_chunks this_file prev_file)
      ≡ (if contains key this_file.chunks then none else lookup key prev_file.chunks)
unfolding rest_of_chunks
lookup-rest_of_chunks this_file prev_file key d =
    lookup-rest_loop key this_file.chunks prev_file.chunks [] d ∙ unfold lookup in ground arith

lookup-insert_all :
    (key : Text) (missing chunks : Dict FilesWithChunks)
    → DistinctKeys missing
    → lookup key (insert_all missing chunks) ≡ or_else (lookup key missing) (lookup key chunks)
unfolding insert_all
lookup-insert_all key [] chunks d = unfold lookup in refl
lookup-insert_all key ((id, chunk) ∷ missing) chunks d = ground (
  arith,
  eq_iff id key,
  lookup-cons id key chunk missing,
  lookup-insert id key chunk chunks,
  lookup-insert_all key missing (insert id chunk chunks) d.1,
)

-- Where the previous file's keys are distinct, the reconstructed file has this file's chunk at each
-- key where it has one, and the previous file's chunk, or none, at any other.
pub lookup-reconstruct_chunks :
    (this_file prev_file : FileInfoResponse) (key : Text)
    → DistinctKeys prev_file.chunks
    → lookup key (reconstruct_chunks this_file prev_file).chunks
      ≡ or_else (lookup key this_file.chunks) (lookup key prev_file.chunks)
unfolding reconstruct_chunks
lookup-reconstruct_chunks this_file prev_file key d =
    lookup-insert_all key (rest_of_chunks this_file prev_file) this_file.chunks
      (unfold rest_of_chunks in rest_loop-DistinctKeys this_file.chunks prev_file.chunks [] tt)
    ∙ ground (arith, lookup-rest_of_chunks this_file prev_file key d)
