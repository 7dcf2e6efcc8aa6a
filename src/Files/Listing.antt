-- ===== src/Files/Listing.antt =====
-- `ListByUserID` of core/files/repository.go and `ListFilesForUser` of core/files/service.metadata.go.
pub mod Pages
use arbokcore.Prelude.{
  ℕ, zero, suc, ◌+◌, ◌-◌, ◌≤◌, Text, text, Option, none, some, List, [], ◌∷◌, ◌++◌, map, Bool, true,
  false, ltb, leb, if◌then◌else◌, length, take, drop, replicate,
}
use arbokcore.Prelude.Int.{ℤ, pos, negsuc, eqb_ℤ}
use arbokcore.Api.{Response, build_response}
use arbokcore.Files.{FilesWithChunks, FileInfoResponse}
use arbokcore.Files.Info.{build_files_info_response}
use arbokcore.Files.Repository.Sql.{Order, join_listed, is_current_of}
use arbokcore.Tokens.Repository.{QueryMapper, get_query}
use arbokcore.World.{
  World, Tables, Done, Go, Outcome, ok, err, panic, Result, value, error, pure, fail, crash,
  attempt, call, get_tables, ◌>>=◌, ◌>>◌,
}

pub record PageOpts : Type 0 where
  pub offset : ℤ
  pub limit : ℤ

abbrev pub default_limit : ℤ
default_limit = pos 20

-- `pageOpts.Limit + 1`
abbrev pub succ_ℤ : ℤ → ℤ
succ_ℤ (pos n) = pos (suc n)
succ_ℤ (negsuc zero) = pos 0
succ_ℤ (negsuc (suc n)) = negsuc n

-- `LIMIT %d OFFSET %d` in SQLite: a negative limit is none, a negative offset is 0.
abbrev pub sql_page : ℤ → ℤ → List FilesWithChunks → List FilesWithChunks
sql_page (pos limit) (pos offset) rows = take limit (drop offset rows)
sql_page (pos limit) (negsuc offset) rows = take limit rows
sql_page (negsuc limit) (pos offset) rows = drop offset rows
sql_page (negsuc limit) (negsuc offset) rows = rows

-- `len(results) > limit`
abbrev pub exceeds : ℕ → ℤ → Bool
exceeds n (pos limit) = ltb limit n
exceeds n (negsuc limit) = true

-- The first elements of a slice, and nil for those between its length and its capacity.
pub padded : ℕ → List FilesWithChunks → List (Option FilesWithChunks)
padded zero rows = []
padded (suc n) [] = none ∷ padded n []
padded (suc n) (row ∷ rows) = some row ∷ padded n rows

-- `results[0:limit]`, where `cap n` is the capacity of a slice that `append` has grown to n
-- elements: `none` is the panic at a bound that is negative or over the capacity.
unfoldable pub reslice : (ℕ → ℕ) → ℤ → List FilesWithChunks → Option (List (Option FilesWithChunks))
unfolding padded
reslice cap (negsuc n) rows = none
reslice cap (pos n) rows = if leb n (cap (length rows)) then some (padded n rows) else none

unfoldable pub limit_of : ℤ → ℤ
limit_of limit = if eqb_ℤ limit (pos 0) then default_limit else limit

-- The scans of the rows; together they take one answer.
unfoldable pub scan_rows : List FilesWithChunks → Go Done
scan_rows [] = pure tt
scan_rows (row ∷ rows) = call

unfoldable pub paged :
    (ℕ → ℕ) → ℤ → List FilesWithChunks → Go (List (Option FilesWithChunks) × Bool)
paged cap limit results = elim (reslice cap limit results) [
  | none ↦ crash
  | some rows ↦ pure (rows, exceeds (length results) limit)
]

-- The rows, and whether there are more.
unfoldable pub list_by_user_id :
    (ℕ → ℕ) → Order → QueryMapper → Text → PageOpts → Go (List (Option FilesWithChunks) × Bool)
unfolding get_query
list_by_user_id cap order querier user_id page_opts = do
  stmt ← get_query querier (text "GetFilesForUser") (text "query_retriever_failed:2001:500")
  let limit = limit_of page_opts.limit
  t ← get_tables
  q ← attempt call
  let results =
      sql_page (succ_ℤ limit) page_opts.offset (order (join_listed (is_current_of user_id) t))
  elim q [
    | error e ↦ fail (text "database_failed:2002:500")
    | value u ↦ (do
      s ← attempt (scan_rows results)
      elim s [
        | error e ↦ fail (text "record_unmarshal_failed:2003:500")
        | value v ↦ paged cap limit results
      ])
  ]

pub record Listing : Type 0 where
  pub files_info : List FileInfoResponse
  pub has_more : Bool

unfoldable pub listed : List (Option FilesWithChunks) → Bool → Go (Response Listing)
listed [] has_more =
    pure (build_response none (some (record { files_info = []; has_more = false })))
listed (row ∷ rows) has_more = elim (build_files_info_response (row ∷ rows)) [
  | none ↦ crash
  | some infos ↦
      pure (build_response none (some (record { files_info = infos; has_more = has_more })))
]

unfoldable pub list_files_for_user :
    (ℕ → ℕ) → Order → QueryMapper → Text → PageOpts → Go (Response Listing)
unfolding build_response
list_files_for_user cap order querier user_id page_opts = do
  r ← attempt (list_by_user_id cap order querier user_id page_opts)
  elim r [ error e ↦ pure (build_response (some e) none) | value files ↦ listed files.0 files.1 ]
