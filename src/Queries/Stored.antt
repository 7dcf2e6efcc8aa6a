-- ===== src/Queries/Stored.antt =====
-- The statements of a well-formed file, each under its name.
use arbokcore.Prelude.{
  ℕ, zero, ◌+◌, Text, text, none, some, List, [], ◌∷◌, ◌++◌, Bool, true, false, ◌||◌, ◌&&◌, not,
  eqb, length, insert, strip_prefix, trim_space, ◌≡◌, refl, ap, ◌∙◌, arith,
}
use arbokcore.Queries.{
  QueryConfig, is_name, span_name, at_line_end, name_of, matched, find_name, remove_names,
  split_dashes, store_parts, find_config, hydrate_config, hydrate_file, hydrate_query_store,
}
use arbokcore.Tokens.Repository.{QueryMapper}
use arbokcore.World.{Result, value}

-- A statement with its name and what follows it up to the next one, which begins with `--` if there
-- is anything: the parts of that, without the `--`.
pub record Statement : Type 0 where
  pub name : Text
  pub body : Text
  pub comments : List Text

abbrev pub part_of : Statement → Text
part_of q = text "sql:" ++ (q.name ++ 10 ∷ q.body)

abbrev pub dashed : List Text → Text
dashed [] = []
dashed (part ∷ parts) = b'-' ∷ b'-' ∷ (part ++ dashed parts)

abbrev pub parts_of : List Statement → List Text
parts_of [] = []
parts_of (q ∷ qs) = part_of q ∷ (q.comments ++ parts_of qs)

-- No two dashes in a row, and none at the end.
abbrev not_dash_first : Text → Bool
not_dash_first [] = false
not_dash_first (c ∷ s) = not (eqb c b'-')

abbrev pub dashless : Text → Bool
dashless [] = true
dashless (c ∷ s) = (not (eqb c b'-') || not_dash_first s) && dashless s

abbrev pub all_names : Text → Bool
all_names [] = true
all_names (c ∷ s) = is_name c && all_names s

-- A text in which the pattern is not found.
abbrev pub IsPlain : Text → Type 0
IsPlain s = (dashless s ≡ true) × (find_name s ≡ none)

abbrev pub AllPlain : List Text → Type 0
AllPlain [] = Unit
AllPlain (s ∷ ss) = IsPlain s × AllPlain ss

abbrev is_empty : Text → Bool
is_empty [] = true
is_empty (c ∷ s) = false

pub record IsStatement (q : Statement) : Type 0 where
  pub some_name : is_empty q.name ≡ false
  pub named : all_names q.name ≡ true
  pub plain_body : IsPlain q.body
  pub plain_comments : AllPlain q.comments

abbrev pub AllStatements : List Statement → Type 0
AllStatements [] = Unit
AllStatements (q ∷ qs) = IsStatement q × AllStatements qs

abbrev AllDashless : List Text → Type 0
AllDashless [] = Unit
AllDashless (s ∷ ss) = (dashless s ≡ true) × AllDashless ss

-- Splitting gives the parts back.
split_dashes-dashed :
    (part : Text) (parts : List Text)
    → dashless part ≡ true
    → AllDashless parts
    → split_dashes (part ++ dashed parts) ≡ part ∷ parts
unfolding split_dashes
split_dashes-dashed [] [] h k = refl
split_dashes-dashed [] (p ∷ ps) h k = ap (λ l. [] ∷ l) (split_dashes-dashed p ps k.0 k.1)
split_dashes-dashed (c ∷ []) [] h k = refl
split_dashes-dashed (c ∷ []) (p ∷ ps) h k =
    ground (arith, h, split_dashes-dashed [] (p ∷ ps) refl k)
split_dashes-dashed (c ∷ d ∷ s) ps h k =
    ground (arith, h, split_dashes-dashed (d ∷ s) ps (ground (arith, h)) k)

span_name-append :
    (name rest : Text) → all_names name ≡ true → span_name (name ++ 10 ∷ rest) ≡ (name, 10 ∷ rest)
unfolding span_name
span_name-append [] rest h = unfold is_name in refl
span_name-append (c ∷ name) rest h =
    ground (arith, h, span_name-append name rest (ground (arith, h)))

name_of-some : (name rest : Text) → is_empty name ≡ false → name_of (name, 10 ∷ rest) ≡ some name
unfolding name_of at_line_end
name_of-some [] rest h = cc
name_of-some (c ∷ name) rest h = refl

matched-part : (q : Statement) → IsStatement q → matched (part_of q) ≡ some q.name
unfolding matched strip_prefix
matched-part q v =
    rw (span_name-append q.name q.body v.named) (name_of-some q.name q.body v.some_name)

remove_names-skip :
    (skipped s : Text) → remove_names (length skipped) (skipped ++ s) ≡ remove_names zero s
unfolding remove_names
remove_names-skip [] s = refl
remove_names-skip (c ∷ skipped) s = remove_names-skip skipped s

remove_names-plain : (s : Text) → find_name s ≡ none → remove_names zero s ≡ s
unfolding remove_names find_name
remove_names-plain [] h = refl
remove_names-plain (c ∷ s) h = ground (arith, h, remove_names-plain s)

dashless-append :
    (name s : Text) → all_names name ≡ true → dashless s ≡ true → dashless (name ++ 10 ∷ s) ≡ true
unfolding is_name
dashless-append [] s h k = ground (arith, k)
dashless-append (c ∷ name) s h k = ground (arith, h, dashless-append name s (ground (arith, h)) k)

find_name-matched :
    (c : ℕ) (s name : Text) → matched (c ∷ s) ≡ some name → find_name (c ∷ s) ≡ some name
unfolding find_name
find_name-matched c s name h = ground (arith, h)

find_name-part : (q : Statement) → IsStatement q → find_name (part_of q) ≡ some q.name
find_name-part q v =
    find_name-matched b's' (text "ql:" ++ (q.name ++ 10 ∷ q.body)) q.name (matched-part q v)

remove_names-matched :
    (c : ℕ) (s name : Text)
    → matched (c ∷ s) ≡ some name
    → remove_names 0 (c ∷ s) ≡ remove_names (3 + length name) s
unfolding remove_names
remove_names-matched c s name h = ground (arith, h)

remove_names-line : (s : Text) → remove_names 0 (10 ∷ s) ≡ 10 ∷ remove_names 0 s
unfolding remove_names matched strip_prefix
remove_names-line s = refl

trim_space-line : (s : Text) → trim_space (10 ∷ s) ≡ trim_space s
unfolding trim_space
trim_space-line s = refl

-- The line of the name is removed.
trim_space-part :
    (q : Statement) → IsStatement q → trim_space (remove_names 0 (part_of q)) ≡ trim_space q.body
trim_space-part q v =
    let line =
      remove_names-matched b's' (text "ql:" ++ (q.name ++ 10 ∷ q.body)) q.name (matched-part q v) in
    let counted : 3 + length q.name ≡ length (text "ql:" ++ q.name) = omega arith in
    let skipped = remove_names-skip (text "ql:" ++ q.name) (10 ∷ q.body) in
    ap trim_space (
      line
      ∙ (ap (λ n. remove_names n (text "ql:" ++ (q.name ++ 10 ∷ q.body))) counted)
      ∙ skipped
      ∙ remove_names-line q.body
      ∙ ap (λ s. 10 ∷ s) (remove_names-plain q.body v.plain_body.1))
    ∙ trim_space-line q.body

store_parts-plain :
    (part : Text) (parts : List Text) (store : QueryMapper)
    → find_name part ≡ none
    → store_parts (part ∷ parts) store ≡ store_parts parts store
unfolding store_parts
store_parts-plain part parts store h = ground (arith, h)

store_parts-named :
    (part name : Text) (parts : List Text) (store : QueryMapper)
    → find_name part ≡ some name
    → store_parts (part ∷ parts) store
      ≡ store_parts parts (insert name (trim_space (remove_names 0 part)) store)
unfolding store_parts
store_parts-named part name parts store h = ground (arith, h)

store_parts-comments :
    (comments parts : List Text) (store : QueryMapper)
    → AllPlain comments
    → store_parts (comments ++ parts) store ≡ store_parts parts store
unfolding store_parts
store_parts-comments [] parts store h = refl
store_parts-comments (c ∷ cs) parts store h =
    store_parts-plain c (cs ++ parts) store h.0.1 ∙ store_parts-comments cs parts store h.1

-- The statements, each without the white space around it, under its name; a later one replaces an
-- earlier one of the same name.
abbrev pub stored : List Statement → QueryMapper → QueryMapper
stored [] store = store
stored (q ∷ qs) store = stored qs (insert q.name (trim_space q.body) store)

store_parts-stored :
    (qs : List Statement) (store : QueryMapper)
    → AllStatements qs
    → store_parts (parts_of qs) store ≡ stored qs store
unfolding store_parts
store_parts-stored [] store h = refl
store_parts-stored (q ∷ qs) store h =
    let held = insert q.name (trim_space q.body) store in
    store_parts-named (part_of q) q.name (q.comments ++ parts_of qs) store (find_name-part q h.0)
    ∙ (ap (λ s. store_parts (q.comments ++ parts_of qs) (insert q.name s store))
          (trim_space-part q h.0)
        ∙ (store_parts-comments q.comments (parts_of qs) held h.0.plain_comments
            ∙ store_parts-stored qs held h.1))

comments-AllDashless :
    (comments parts : List Text)
    → AllPlain comments
    → AllDashless parts
    → AllDashless (comments ++ parts)
comments-AllDashless [] parts h k = k
comments-AllDashless (c ∷ cs) parts h k = (h.0.0, comments-AllDashless cs parts h.1 k)

parts_of-AllDashless : (qs : List Statement) → AllStatements qs → AllDashless (parts_of qs)
parts_of-AllDashless [] h = tt
parts_of-AllDashless (q ∷ qs) h = (
  dashless-append q.name q.body h.0.named h.0.plain_body.0,
  comments-AllDashless q.comments (parts_of qs) h.0.plain_comments (parts_of-AllDashless qs h.1),
)

-- Loading gives back what a file holds. Where a table has an entry with a file that can be read, and
-- the file is a sequence of named statements, none with `--` or another name inside, each up to the
-- end of the file, the next name or a comment: the store has each statement under its name without
-- the white space around it, and nothing else. What stands after a `--` inside a statement, up to the
-- next name, is no part of it.
pub hydrate_query_store-stored :
    (read_file : Text → Result Text) (configs : List QueryConfig) (table_name path : Text)
    (paths : List Text) (queries : List Statement) {config : QueryConfig}
    → find_config configs table_name ≡ some config
    → config.query_file_paths ≡ path ∷ paths
    → read_file path ≡ value (dashed (parts_of queries))
    → AllStatements queries
    → hydrate_query_store read_file configs table_name ≡ value (stored queries [])
unfolding hydrate_query_store hydrate_config hydrate_file
hydrate_query_store-stored read_file configs table_name path paths queries {config} c p r h =
    let split = split_dashes-dashed [] (parts_of queries) refl (parts_of-AllDashless queries h) in
    rw (c, p, r)
      (ap value (
        ap (λ parts. store_parts parts []) split
        ∙ (store_parts-plain [] (parts_of queries) [] (unfold find_name in refl)
            ∙ store_parts-stored queries [] h)))
