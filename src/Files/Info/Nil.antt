-- ===== src/Files/Info/Nil.antt =====
-- `BuildFilesInfoResponse` of rows of which one is nil.
use arbokcore.Prelude.{
  Option, none, some, Option-cases, List, [], ◌∷◌, Bool, true, false, ◌≡◌, refl, inl, inr, arith,
  lookup,
}
use arbokcore.Files.{FilesWithChunks}
use arbokcore.Files.Info.{BuildState, seen_at, build_loop, build_files_info_response}

unfoldable pub has_nil : List (Option FilesWithChunks) → Bool
has_nil [] = false
has_nil (none ∷ files) = true
has_nil (some file ∷ files) = has_nil files

build_loop-nil :
    (files : List (Option FilesWithChunks)) (s : BuildState)
    → has_nil files ≡ true
    → build_loop files s ≡ none
unfolding build_loop has_nil
build_loop-nil [] s h = absurd (ground arith)
build_loop-nil (none ∷ files) s h = refl
build_loop-nil (some file ∷ files) s h =
    elim (Option-cases (seen_at file s (lookup file.id s.files_seen_index))) [
      | inl e ↦ rw (e, build_loop)
      | inr (s', e) ↦ rw (e, build_loop) (build_loop-nil files s' h)
    ]

-- `BuildFilesInfoResponse` panics at rows of which one is nil, wherever it stands.
pub build_files_info_response-nil :
    (files : List (Option FilesWithChunks))
    → has_nil files ≡ true
    → build_files_info_response files ≡ none
unfolding build_files_info_response
build_files_info_response-nil files h = rw (build_loop-nil files _ h, build_files_info_response)
