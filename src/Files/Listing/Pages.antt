-- ===== src/Files/Listing/Pages.antt =====
-- A page that is full, and a page that is not.
use arbokcore.Prelude.{
  ℕ, zero, suc, ◌≤◌, ◌<◌, Bool-cases, inl, inr, Text, text, Option, none, some, List, [], ◌∷◌, map,
  Bool, true, ltb, leb, if◌then◌else◌, length, take, drop, is_some, lookup, ◌≡◌, refl, ap, arith,
  ◌⊎◌,
}
use arbokcore.Prelude.Int.{ℤ, pos}
use arbokcore.Api.{build_response}
use arbokcore.Files.{FilesWithChunks}
use arbokcore.Files.Info.Nil.{has_nil, build_files_info_response-nil}
use arbokcore.Files.Info.Group.{group, build_files_info_response-group}
use arbokcore.Files.Repository.Sql.{Order, join_listed, is_current_of}
use arbokcore.Tokens.Repository.{QueryMapper}
use arbokcore.World.{World, ok, panic, first, others}
use arbokcore.Files.Listing.{
  PageOpts, limit_of, padded, reslice, list_by_user_id, listed, scan_rows, paged,
  list_files_for_user,
}

padded-full :
    (n : ℕ) (rows : List FilesWithChunks) → n ≤ length rows → padded n rows ≡ map some (take n rows)
unfolding padded
padded-full zero rows h = refl
padded-full (suc n) [] h = absurd (omega arith)
padded-full (suc n) (row ∷ rows) h = ap (λ t. some row ∷ t) (padded-full n rows (omega arith))

-- The rows of the user's current files from the offset on, as the engine orders them.
abbrev pub current_rows : Order → World → Text → ℕ → List FilesWithChunks
current_rows order w user_id offset =
    drop offset (order (join_listed (is_current_of user_id) w.tables))

padded-short :
    (n : ℕ) (rows : List FilesWithChunks) → length rows < n → has_nil (padded n rows) ≡ true
unfolding padded has_nil
padded-short zero rows h = elim h [ ]
padded-short (suc n) [] h = refl
padded-short (suc n) (row ∷ rows) h = padded-short n rows (omega arith)

length-take :
    (n : ℕ) (rows : List FilesWithChunks)
    → length (take n rows) ≡ (if leb n (length rows) then n else length rows)
length-take zero rows = ground arith
length-take (suc n) [] = ground arith
length-take (suc n) (row ∷ rows) = ground (arith, length-take n rows)

take-take-suc : (n : ℕ) (rows : List FilesWithChunks) → take n (take (suc n) rows) ≡ take n rows
take-take-suc zero rows = refl
take-take-suc (suc n) [] = refl
take-take-suc (suc n) (row ∷ rows) = ap (λ t. row ∷ t) (take-take-suc n rows)

limit_of-pos : (limit : ℤ) (n : ℕ) → limit_of limit ≡ pos n → 0 < n
unfolding limit_of
limit_of-pos limit n h = ground arith

-- The code's page against the rows of the user.
paged-full :
    (cap : ℕ → ℕ) (n : ℕ) (rows : List FilesWithChunks)
    → n ≤ length rows
    → length (take (suc n) rows) ≤ cap (length (take (suc n) rows))
    → reslice cap (pos n) (take (suc n) rows) ≡ some (map some (take n rows))
unfolding reslice
paged-full cap n rows h c =
    let enough : n ≤ length (take (suc n) rows) = ground (arith, length-take (suc n) rows) in
    ground (arith, padded-full n (take (suc n) rows) enough, take-take-suc n rows)

paged-short :
    (cap : ℕ → ℕ) (n : ℕ) (rows : List FilesWithChunks)
    → length rows < n
    → (reslice cap (pos n) rows ≡ none) ⊎ (reslice cap (pos n) rows ≡ some (padded n rows))
unfolding reslice
paged-short cap n rows h = ground arith

listed-full :
    (n : ℕ) (rows : List FilesWithChunks) (has_more : Bool) (w : World)
    → 0 < n
    → n ≤ length rows
    → listed (map some (take n rows)) has_more w ≡ (
      ok (
          build_response none
            (some (record { files_info = group (take n rows); has_more = has_more }))),
      w,
    )
unfolding listed
listed-full zero rows has_more w p h = absurd (omega arith)
listed-full (suc n) [] has_more w p h = absurd (omega arith)
listed-full (suc n) (row ∷ rows) has_more w p h =
    ground (arith, build_files_info_response-group (take (suc n) (row ∷ rows)))

listed-nil :
    (files : List (Option FilesWithChunks)) (has_more : Bool) (w : World)
    → has_nil files ≡ true
    → listed files has_more w ≡ (panic, w)
unfolding listed has_nil
listed-nil [] has_more w h = absurd (ground arith)
listed-nil (f ∷ files) has_more w h = ground (arith, build_files_info_response-nil (f ∷ files) h)

scan_rows-fine :
    (rows : List FilesWithChunks) (w : World)
    → first w.answers ≡ none
    → (scan_rows rows w).0 ≡ ok tt
unfolding scan_rows
scan_rows-fine [] w h = refl
scan_rows-fine (row ∷ rows) w h = ground arith

module _ (cap : ℕ → ℕ) (order : Order) (querier : QueryMapper) (user_id : Text) (limit : ℤ)
    (offset n : ℕ) (w : World) (known : is_some (lookup (text "GetFilesForUser") querier) ≡ true)
    (queried : first w.answers ≡ none) (scanned : first (others w.answers) ≡ none)
    (wanted : limit_of limit ≡ pos n) where
  abbrev page : PageOpts
  page = record { offset = pos offset; limit = limit }

  abbrev rows : List FilesWithChunks
  rows = current_rows order w user_id offset

  list_by_user_id-paged :
      (w' : World) × ((list_by_user_id cap order querier user_id page w).0
        ≡ (paged cap (pos n) (take (suc n) rows) w').0)
  unfolding list_by_user_id
  list_by_user_id-paged = (
    (scan_rows (take (suc n) rows) (record w { answers = others w.answers })).1,
    ground (
      arith,
      scan_rows-fine (take (suc n) rows) (record w { answers = others w.answers }) scanned,
    ),
  )

  list_files_for_user-full :
      n ≤ length (current_rows order w user_id offset)
      → ((m : ℕ) → m ≤ cap m)
      → (list_files_for_user cap order querier user_id page w).0
        ≡ ok (
            build_response none (
              some (record {
                files_info = group (take n (current_rows order w user_id offset));
                has_more = ltb n (length (current_rows order w user_id offset));
              })))
  unfolding list_files_for_user paged
  list_files_for_user-full full grown =
      let (w', e) = list_by_user_id-paged in
      let ready = paged-full cap n rows full (grown (length (take (suc n) rows))) in
      ground (
        arith,
        e,
        ready,
        listed-full n rows (ltb n (length rows))
            (list_by_user_id cap order querier user_id page w).1 (limit_of-pos limit n wanted) full,
        length-take (suc n) rows,
      )

  list_files_for_user-short :
      length (current_rows order w user_id offset) < n
      → (list_files_for_user cap order querier user_id page w).0 ≡ panic
  unfolding list_files_for_user paged
  list_files_for_user-short short =
      let (w', e) = list_by_user_id-paged in
      let few : length (take (suc n) rows) < n = ground (arith, length-take (suc n) rows) in
      ground (
        arith,
        e,
        paged-short cap n (take (suc n) rows) few,
        padded-short n (take (suc n) rows) few,
        listed-nil (padded n (take (suc n) rows)) (ltb n (length (take (suc n) rows)))
            (list_by_user_id cap order querier user_id page w).1,
      )

  -- Where the statement is known, the driver answers the query and the scans without an error, the
  -- page holds n rows (20 if the limit is 0), and a slice's capacity is never below its length: for a
  -- user with at least n rows from the offset on, the response is the files of the first n rows, and
  -- it says whether there is another row; for a user with fewer rows the request panics.
  pub list_files_for_user-page :
      ((m : ℕ) → m ≤ cap m)
      → (list_files_for_user cap order querier user_id page w).0 ≡ (
          if ltb (length (current_rows order w user_id offset)) n
          then panic
          else ok (
              build_response none (
                some (record {
                  files_info = group (take n (current_rows order w user_id offset));
                  has_more = ltb n (length (current_rows order w user_id offset));
                }))))
  list_files_for_user-page grown = elim (Bool-cases (ltb (length rows) n)) [
    | inl short ↦ rw short (list_files_for_user-short (ground arith))
    | inr full ↦ rw full (list_files_for_user-full (ground arith) grown)
  ]
