-- ===== src/Supervisors/Executor/Filling.antt =====
-- The chunks that a new version takes over from the previous one.
use mathlib.Core.List.{Mem, mem-cons, mem-map_of_mem}
use mathlib.Core.Logic.Or
use arbokcore.Prelude.{
  ℕ, Text, ◌==◌, eq_iff, some, [], ◌∷◌, map, Dict, lookup, DistinctKeys, contains, false, ◌≡◌, inl,
  inr, ◌∙◌, arith, Bool-cases,
}
use arbokcore.Prelude.Int.{eqb_ℤ_iff}
use arbokcore.Files.{FilesWithChunks, FileInfoResponse}
use arbokcore.Supervisors.Merge.{rest_of_chunks}
use arbokcore.Supervisors.Merge.Laws.{lookup-rest_of_chunks}
use arbokcore.Supervisors.Executor.{filler, filler_chunks}

lookup-mem :
    (key : Text) (chunk : FilesWithChunks) (chunks : Dict FilesWithChunks)
    → lookup key chunks ≡ some chunk
    → Mem (key, chunk) chunks
unfolding lookup
lookup-mem key chunk [] h = absurd (ground arith)
lookup-mem key chunk ((k, c) ∷ chunks) h = elim (Bool-cases (k == key)) [
  | inl same ↦ mem-cons.1 (Or.inl (ground (arith, eq_iff k key)))
  | inr other ↦ mem-cons.1 (Or.inr (lookup-mem key chunk chunks (ground arith)))
]

-- Where both versions count as many chunks and the previous one's keys are distinct, each chunk of
-- the previous one whose key the new one lacks is among the rows that the worker adds for the new
-- version.
pub filler_chunks-mem :
    (this_file prev_file : FileInfoResponse) (now : ℕ) (key : Text) (chunk : FilesWithChunks)
    → this_file.n_chunks ≡ prev_file.n_chunks
    → DistinctKeys prev_file.chunks
    → lookup key prev_file.chunks ≡ some chunk
    → contains key this_file.chunks ≡ false
    → Mem
        (filler this_file now (key, chunk))
        (map (filler this_file now) (filler_chunks this_file prev_file))
unfolding filler_chunks
filler_chunks-mem this_file prev_file now key chunk n d h c =
    rw ((eqb_ℤ_iff this_file.n_chunks prev_file.n_chunks).1 n) (
      mem-map_of_mem (filler this_file now) (
        lookup-mem key chunk (rest_of_chunks this_file prev_file)
          (lookup-rest_of_chunks this_file prev_file key d ∙ rw c h)))
