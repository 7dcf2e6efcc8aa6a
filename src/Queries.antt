-- ===== src/Queries.antt =====
-- pkg/squirtle/querystore.go: the statements of a table, read from its SQL file.
pub mod Stored
use arbokcore.Prelude.{
  ℕ, zero, suc, ◌+◌, Text, text, ◌==◌, Option, none, some, List, [], ◌∷◌, Bool, true, false, ◌||◌,
  ◌&&◌, leb, eqb, if◌then◌else◌, length, insert, strip_prefix, trim_space,
}
use arbokcore.Tokens.Repository.{QueryMapper}
use arbokcore.World.{Result, value, error}

pub record QueryConfig : Type 0 where
  pub table : Text
  pub query_file_paths : List Text

-- A character of `[P<QueryName>\w]`.
unfoldable pub is_name : ℕ → Bool
is_name c =
    (leb b'0' c && leb c b'9')
    || (leb b'A' c && leb c b'Z')
    || (leb b'a' c && leb c b'z')
    || eqb c b'_'
    || eqb c b'<'
    || eqb c b'>'

-- The longest name at the beginning of a text, which may be empty, and the rest.
unfoldable pub span_name : Text → Text × Text
span_name [] = ([], [])
span_name (c ∷ s) =
    let (name, rest) = span_name s in if is_name c then (c ∷ name, rest) else ([], c ∷ s)

-- `$` of a multi-line expression.
unfoldable pub at_line_end : Text → Bool
at_line_end [] = true
at_line_end (c ∷ s) = eqb c 10

unfoldable pub name_of : Text × Text → Option Text
name_of ([], rest) = none
name_of (c ∷ name, rest) = if at_line_end rest then some (c ∷ name) else none

-- The name of a match of `(?m)sql:([P<QueryName>\w]+)$` at the beginning of a text.
unfoldable pub matched : Text → Option Text
unfolding name_of span_name at_line_end is_name
matched s = elim (strip_prefix (text "sql:") s) [
  | none ↦ none
  | some rest ↦ name_of (span_name rest)
]

-- `FindStringSubmatch`: the name of the leftmost match.
unfoldable pub find_name : Text → Option Text
find_name [] = none
find_name (c ∷ s) =
    let later = find_name s in elim (matched (c ∷ s)) [ none ↦ later | some name ↦ some name ]

-- `ReplaceAllString` by the empty text, after `skipped` more characters of a match.
unfoldable pub remove_names : ℕ → Text → Text
remove_names skipped [] = []
remove_names (suc skipped) (c ∷ s) = remove_names skipped s
remove_names zero (c ∷ s) = elim (matched (c ∷ s)) [
  | none ↦ c ∷ remove_names zero s
  | some name ↦ remove_names (3 + length name) s
]

abbrev pub cons_first : ℕ → List Text → List Text
cons_first c [] = (c ∷ []) ∷ []
cons_first c (part ∷ parts) = (c ∷ part) ∷ parts

-- `strings.Split(queries, "--")`
unfoldable pub split_dashes : Text → List Text
split_dashes [] = [] ∷ []
split_dashes (c ∷ []) = (c ∷ []) ∷ []
split_dashes (c ∷ d ∷ s) =
    let parts = split_dashes s in
    let longer = cons_first c (split_dashes (d ∷ s)) in
    if eqb c b'-' && eqb d b'-' then [] ∷ parts else longer

-- The loop over the parts of a file.
unfoldable pub store_parts : List Text → QueryMapper → QueryMapper
store_parts [] store = store
store_parts (part ∷ parts) store = elim (find_name part) [
  | none ↦ store_parts parts store
  | some name ↦ store_parts parts (insert name (trim_space (remove_names 0 part)) store)
]

unfoldable pub find_config : List QueryConfig → Text → Option QueryConfig
find_config [] table_name = none
find_config (config ∷ configs) table_name =
    let found = find_config configs table_name in
    if config.table == table_name then some config else found

unfoldable pub hydrate_file : Result Text → Result QueryMapper
hydrate_file (error e) = error e
hydrate_file (value queries) = value (store_parts (split_dashes queries) [])

unfoldable pub hydrate_config : (Text → Result Text) → Option QueryConfig → Result QueryMapper
unfolding hydrate_file
hydrate_config read_file none = error (text "config for table not found")
hydrate_config read_file (some config) = elim config.query_file_paths [
  | [] ↦ error (text "missing query file. don't fool me")
  | path ∷ paths ↦ hydrate_file (read_file path)
]

-- Over what the operating system reads at a path.
unfoldable pub hydrate_query_store :
    (Text → Result Text) → List QueryConfig → Text → Result QueryMapper
unfolding find_config hydrate_config
hydrate_query_store read_file configs table_name =
    hydrate_config read_file (find_config configs table_name)
