-- ===== src/Files/Repository/Sql.antt =====
-- The statements of core/files/queries.metadata.sql, and the where clause that `FindClause` builds.
use arbokcore.Prelude.{
  ℕ, Text, text, ◌==◌, Option, none, some, List, [], ◌∷◌, ◌++◌, map, Bool, true, false, ◌&&◌, ◌||◌,
  if◌then◌else◌, select, length, join, Dict, insert,
}
use arbokcore.Files.{FileMetadata, UserFile, FilesWithChunks}
use arbokcore.World.{Tables}

-- `Val` is a string in every clause that the program builds.
pub record FindKv : Type 0 where
  pub key : Text
  pub place_holder : Text
  pub operator : Text
  pub val : Text

place_holder_of : FindKv → Text
place_holder_of kv = if kv.place_holder == [] then b':' ∷ kv.key else kv.place_holder

clause_text : FindKv → Text
clause_text kv = kv.key ++ (b' ' ∷ (kv.operator ++ (b' ' ∷ place_holder_of kv)))

-- `FindClause.String`
unfoldable pub clause_string : List FindKv → Text
unfolding place_holder_of clause_text join
clause_string clauses = join (text " AND ") (map clause_text clauses)

args_onto : List FindKv → Dict Text → Dict Text
args_onto [] args = args
args_onto (kv ∷ clauses) args = args_onto clauses (insert kv.key kv.val args)

-- `FindClause.Args`
unfoldable pub clause_args : List FindKv → Dict Text
unfolding args_onto
clause_args clauses = args_onto clauses []

-- The columns by which the program looks rows up, always with the operator `=`.
unfoldable pub column : Text → FileMetadata → Option Text
column key m =
    if key == text "id"
    then some m.id
    else if key == text "upload_status"
    then some m.upload_status
    else none

abbrev pub is_val : Option Text → Text → Bool
is_val none v = false
is_val (some c) v = c == v

unfoldable pub has_all : List FindKv → FileMetadata → Bool
unfolding column
has_all [] m = true
has_all (kv ∷ clauses) m = is_val (column kv.key m) kv.val && has_all clauses m

-- `prev_id IS :prev_id`: NULL is NULL.
abbrev pub sql_is : Option Text → Option Text → Bool
sql_is none none = true
sql_is none (some b) = false
sql_is (some a) none = false
sql_is (some a) (some b) = a == b

-- UpdateCurrentFlag with `AND prev_id IS :prev_id`, on one row.
unfoldable pub mark : Option Text → Text → Text → FileMetadata → FileMetadata
mark prev_file_id new_file_id upload_status m =
    if m.id == new_file_id && sql_is m.prev_id prev_file_id
    then record m { current_flag = true; end_date = none; upload_status = upload_status }
    else m

-- UpdateCurrentFlag of the previous version, on one row.
unfoldable pub retire : Text → ℕ → Text → FileMetadata → FileMetadata
retire prev_file_id now upload_status m =
    if m.id == prev_file_id
    then record m { current_flag = false; end_date = some now; upload_status = upload_status }
    else m

-- FindByHash
unfoldable pub count_hash : Text → List FileMetadata → ℕ
count_hash hash metadatas = length (select (λ m. m.file_hash == hash) metadatas)

-- The order in which the engine returns rows: ORDER BY created_at DESC leaves ties open.
abbrev pub Order : Type 0
Order = List FilesWithChunks → List FilesWithChunks

-- A row of the join. The columns of `ufs` overwrite `created_at` and `updated_at`; what is not
-- selected stays empty.
abbrev pub join_row : FileMetadata → UserFile → FilesWithChunks
join_row fm ufs = record {
  id = fm.id;
  user_id = fm.user_id;
  filename = fm.filename;
  file_size = fm.file_size;
  file_type = fm.file_type;
  file_hash = fm.file_hash;
  n_chunks = fm.n_chunks;
  current_flag = fm.current_flag;
  upload_status = [];
  file_id = [];
  chunk_id = ufs.chunk_id;
  chunk_blob_url = ufs.chunk_blob_url;
  chunk_hash = ufs.chunk_hash;
  next_chunk_id = ufs.next_chunk_id;
  prev_id = fm.prev_id;
  end_date = fm.end_date;
  created_at = ufs.created_at;
  updated_at = ufs.updated_at;
}

-- A row of the listing: it has the file's `created_at`, and neither `end_date` nor `updated_at`.
abbrev pub listed_row : FileMetadata → UserFile → FilesWithChunks
listed_row fm ufs = record (join_row fm ufs) {
  end_date = none;
  created_at = fm.created_at;
  updated_at = 0;
}

unfoldable pub join_chunks :
    (FileMetadata → UserFile → FilesWithChunks)
    → FileMetadata
    → List UserFile
    → List FilesWithChunks
join_chunks row fm [] = []
join_chunks row fm (ufs ∷ rest) =
    let more = join_chunks row fm rest in if ufs.file_id == fm.id then row fm ufs ∷ more else more

join_all :
    (FileMetadata → UserFile → FilesWithChunks)
    → (FileMetadata → Bool)
    → List FileMetadata
    → List UserFile
    → List FilesWithChunks
join_all row p [] user_files = []
join_all row p (fm ∷ rest) user_files =
    let more = join_all row p rest user_files in
    if p fm then join_chunks row fm user_files ++ more else more

-- `FROM file_metadatas fm JOIN user_files ufs ON ufs.file_id = fm.id WHERE …`
unfoldable pub join_files : (FileMetadata → Bool) → Tables → List FilesWithChunks
unfolding join_all join_chunks
join_files p t = join_all join_row p t.file_metadatas t.user_files

unfoldable pub join_listed : (FileMetadata → Bool) → Tables → List FilesWithChunks
unfolding join_all join_chunks
join_listed p t = join_all listed_row p t.file_metadatas t.user_files

-- `fm.id IN (?)`
unfoldable pub in_ids : List (Option Text) → FileMetadata → Bool
in_ids [] fm = false
in_ids (id ∷ ids) fm = is_val id fm.id || in_ids ids fm

-- `fm.user_id = :user_id AND fm.current_flag = 1`
unfoldable pub is_current_of : Text → FileMetadata → Bool
is_current_of user_id fm = fm.user_id == user_id && fm.current_flag
