-- ===== src/Examples/Data.antt =====
-- A user with a file of two versions.
use arbokcore.Prelude.{ℕ, Text, text, Option, none, some, List, [], ◌∷◌, ◌++◌, true, false}
use arbokcore.Prelude.Int.{pos}
use arbokcore.Files.{FileMetadata, UserFile, FilesWithChunks, status_uploading}
use arbokcore.Tokens.{Token}
use arbokcore.Tokens.Repository.{QueryMapper}
use arbokcore.BlobStore.{System}
use arbokcore.World.{World, Tables}

abbrev pub version : Text → Option Text → FileMetadata
version id prev_id = record {
  id = id;
  user_id = text "ann";
  filename = text "notes";
  file_size = pos 5000000;
  file_type = text "txt";
  file_hash = id;
  n_chunks = pos 2;
  current_flag = true;
  upload_status = status_uploading;
  prev_id = prev_id;
  end_date = none;
  created_at = 5;
  updated_at = 5;
}

abbrev pub chunk_row : Text → ℕ → Text → UserFile
chunk_row file_id chunk_id url = record {
  user_id = text "ann";
  file_id = file_id;
  chunk_id = pos chunk_id;
  chunk_blob_url = url;
  chunk_hash = url;
  next_chunk_id = some (pos 1);
  created_at = 5;
  updated_at = 5;
}

abbrev pub joined : Text → ℕ → Text → FilesWithChunks
joined file_id chunk_id url = record {
  id = file_id;
  user_id = text "ann";
  filename = text "notes";
  file_size = pos 5000000;
  file_type = text "txt";
  file_hash = file_id;
  n_chunks = pos 2;
  current_flag = true;
  upload_status = status_uploading;
  file_id = file_id;
  chunk_id = pos chunk_id;
  chunk_blob_url = url;
  chunk_hash = url;
  next_chunk_id = some (pos 1);
  prev_id = none;
  end_date = none;
  created_at = 5;
  updated_at = 5;
}

abbrev pub two_rows : List FilesWithChunks
two_rows = joined (text "v1") 0 (text "a") ∷ joined (text "v1") 1 (text "b") ∷ []

abbrev pub stream_row : Token
stream_row = record {
  resource_id = text "v1";
  resource_type = text "stream";
  access_token = text "s1";
  refresh_token = text "r1";
  token_type = [];
  user_id = some (text "ann");
  device_id = [];
  access_expires_at = 100;
  refresh_expires_at = 100;
  created_at = 5;
  updated_at = 5;
}

-- The first version has both of its chunks, the second its first only.
abbrev pub tables : Tables
tables = record {
  file_metadatas = version (text "v1") none ∷ version (text "v2") (some (text "v1")) ∷ [];
  user_files =
      chunk_row (text "v1") 0 (text "a")
      ∷ chunk_row (text "v1") 1 (text "b")
      ∷ chunk_row (text "v2") 0 (text "c")
      ∷ [];
  tokens = stream_row ∷ [];
  users = [];
}

abbrev pub answering : List (Option Text) → World
answering answers = record {
  tables = tables;
  answers = answers;
  fresh = some (text "v3") ∷ some (text "t") ∷ some (text "u") ∷ [];
  now = 10;
  started = 1;
  queues = [];
  cache = [];
  cache_answers = [];
  disk = (text "a", text "first") ∷ (text "b", text "second") ∷ [];
}

abbrev pub calm : World
calm = answering []

abbrev pub querier : QueryMapper
querier =
    (text "UpdateCurrentFlag", [])
    ∷ (text "GetFilesForUser", [])
    ∷ (text "FindByHash", [])
    ∷ (text "FindBy", [])
    ∷ (text "CreateFileMetadata", [])
    ∷ (text "CreateToken", [])
    ∷ (text "GetStreamToken", [])
    ∷ (text "CreateFileChunk", [])
    ∷ (text "SelectFilesForUser", [])
    ∷ []

abbrev pub joined_path : List Text → Text
joined_path [] = []
joined_path (part ∷ parts) = part ++ (b'/' ∷ joined_path parts)

-- An operating system on which directories are new, and a copy that fails writes nothing.
abbrev pub local_system : System
local_system = record {
  join_path = joined_path;
  is_exist = λ e. false;
  is_dir = λ path. true;
  partly = λ content. [];
}
