-- ===== src/Supervisors/Merge.antt =====
-- `RestOfChunks`, `ReconstructChunks` and `Validate` of core/supervisors/metadata.changelog.go. A map
-- is an association list in the order in which `range` visits it, which Go leaves open.
pub mod Laws
pub mod Validity
use arbokcore.Prelude.{
  ℕ, Text, ◌==◌, Option, none, some, List, [], ◌∷◌, Dict, lookup, insert, contains, Bool, true,
  false, not, if◌then◌else◌,
}
use arbokcore.Prelude.Int.{ℤ, eqb_ℤ}
use arbokcore.Prelude.Decimal.{show_ℤ}
use arbokcore.Files.{FilesWithChunks, FileInfoResponse}

unfoldable pub rest_loop :
    Dict FilesWithChunks → Dict FilesWithChunks → Dict FilesWithChunks → Dict FilesWithChunks
rest_loop this [] matched = matched
rest_loop this ((id, chunk) ∷ prev) matched =
    rest_loop this prev (if contains id this then matched else insert id chunk matched)

unfoldable pub rest_of_chunks : FileInfoResponse → FileInfoResponse → Dict FilesWithChunks
rest_of_chunks this_file prev_file = rest_loop this_file.chunks prev_file.chunks []

unfoldable pub insert_all : Dict FilesWithChunks → Dict FilesWithChunks → Dict FilesWithChunks
insert_all [] chunks = chunks
insert_all ((id, chunk) ∷ missing) chunks = insert_all missing (insert id chunk chunks)

-- The source writes into `thisFile.Chunks` and returns the same pointer: the result is `thisFile`
-- from here on.
unfoldable pub reconstruct_chunks : FileInfoResponse → FileInfoResponse → FileInfoResponse
reconstruct_chunks this_file prev_file = record this_file {
  chunks = insert_all (rest_of_chunks this_file prev_file) this_file.chunks;
}

-- `none` is the `return false` at a chunk with no next id.
unfoldable pub prev_chain : Dict FilesWithChunks → Dict Text → Option (Dict Text)
prev_chain [] chain = some chain
prev_chain ((id, chunk) ∷ chunks) chain = elim chunk.next_chunk_id [
  | none ↦ none
  | some next ↦ prev_chain chunks (insert id (show_ℤ next) chain)
]

-- A missing key of a Go map reads as the empty string.
abbrev pub or_empty : Option Text → Text
or_empty none = []
or_empty (some v) = v

abbrev pub entry_at : Text → Dict Text → Text
entry_at k m = or_empty (lookup k m)

unfoldable pub follows_chain : Dict Text → Dict FilesWithChunks → Bool
follows_chain chain [] = true
follows_chain chain ((id, chunk) ∷ chunks) = elim chunk.next_chunk_id [
  | none ↦ false
  | some next ↦
      let rest = follows_chain chain chunks in
      if entry_at id chain == show_ℤ next then rest else false
]

unfoldable pub validate : FileInfoResponse → FileInfoResponse → Bool
validate reconstructed prev =
    if eqb_ℤ prev.n_chunks reconstructed.n_chunks
    then elim (prev_chain prev.chunks []) [
      | none ↦ false
      | some chain ↦ follows_chain chain reconstructed.chunks
    ]
    else false
