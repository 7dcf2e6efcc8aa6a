-- ===== src/Files/ChunkUpload.antt =====
-- `FileChunkService` of core/files/userfiles.service.go: one chunk of a file comes in. The digest of
-- its bytes (SHA-256 in hexadecimal) and the blob store are parameters.
pub mod Storage
pub mod Lost
use arbokcore.Prelude.{ℕ, Text, text, ◌==◌, Option, none, some, Bool, true, false, if◌then◌else◌}
use arbokcore.Prelude.Int.{ℤ}
use arbokcore.Prelude.Decimal.{atoi}
use arbokcore.BlobStore.{BlobStorage}
use arbokcore.Api.{Response, build_response}
use arbokcore.Files.{UserFile}
use arbokcore.Files.Repository.{create_chunk}
use arbokcore.Files.Service.{refused}
use arbokcore.Tokens.Repository.{QueryMapper}
use arbokcore.World.{
  World, Done, Go, Outcome, ok, err, panic, Result, value, error, pure, attempt, call, get_now,
  ◌>>=◌, ◌>>◌,
}

pub record FileChunkRequest : Type 0 where
  pub chunk_id : Text
  pub next_chunk_id : Text
  pub chunk_digest : Text
  pub chunk_size : ℤ
  pub file_digest : Text
  pub content : Text
  pub file_id : Text
  pub user_id : Text

pub record ChunkUploadResponse : Type 0 where
  pub chunk_id : ℤ
  pub next_chunk_id : ℤ
  pub chunk_blob_url : Text
  pub chunk_hash : Text
  pub created_at : ℕ
  pub updated_at : ℕ

-- `io.Copy` into the hash may fail.
unfoldable pub validate_hash : (Text → Text) → FileChunkRequest → Go Bool
validate_hash digest req = do
  r ← attempt call
  elim r [ value u ↦ pure (req.chunk_digest == digest req.content) | error e ↦ pure false ]

abbrev pub user_file : FileChunkRequest → ℤ → ℤ → Text → ℕ → UserFile
user_file req chunk_id next_chunk_id path now = record {
  user_id = req.user_id;
  file_id = req.file_id;
  chunk_id = chunk_id;
  chunk_blob_url = path;
  chunk_hash = req.chunk_digest;
  next_chunk_id = some next_chunk_id;
  created_at = now;
  updated_at = now;
}

abbrev pub uploaded : FileChunkRequest → ℤ → ℤ → Text → ℕ → ChunkUploadResponse
uploaded req chunk_id next_chunk_id path now = record {
  chunk_id = chunk_id;
  next_chunk_id = next_chunk_id;
  chunk_blob_url = path;
  chunk_hash = req.chunk_digest;
  created_at = now;
  updated_at = now;
}

unfoldable pub saved : ChunkUploadResponse → Result Done → Go (Response ChunkUploadResponse)
saved answer (error e) = refused (text "save_chunk_failed:5005:500")
saved answer (value u) = pure (build_response none (some answer))

unfoldable pub store_chunk :
    QueryMapper → FileChunkRequest → ℤ → ℤ → Result Text → Go (Response ChunkUploadResponse)
unfolding saved
store_chunk querier req chunk_id next_chunk_id (error e) =
    refused (text "internal_server_error:5003:500")
store_chunk querier req chunk_id next_chunk_id (value path) = do
  now ← get_now
  r ← attempt (create_chunk querier (user_file req chunk_id next_chunk_id path now))
  saved (uploaded req chunk_id next_chunk_id path now) r

-- The ids as `Atoi` and `ParseInt` read them, each with whether it is a number.
unfoldable pub with_ids :
    BlobStorage
    → QueryMapper
    → FileChunkRequest
    → ℤ × Bool
    → ℤ × Bool
    → Go (Response ChunkUploadResponse)
with_ids storage querier req (chunk_id, false) next = refused (text "invalid_file_chunk:5002:422")
with_ids storage querier req (chunk_id, true) (next_chunk_id, false) =
    refused (text "invalid_file_chunk:5004:422")
with_ids storage querier req (chunk_id, true) (next_chunk_id, true) =
    attempt (storage.update_chunk req.file_id chunk_id req.content)
    >>= store_chunk querier req chunk_id next_chunk_id

-- What follows the check of the digest.
unfoldable pub checked :
    BlobStorage → QueryMapper → FileChunkRequest → Bool → Go (Response ChunkUploadResponse)
checked storage querier req false = refused (text "corrupted_file:5001:422")
checked storage querier req true =
    with_ids storage querier req (atoi req.chunk_id) (atoi req.next_chunk_id)

unfoldable pub create_file_chunk :
    (Text → Text) → BlobStorage → QueryMapper → FileChunkRequest → Go (Response ChunkUploadResponse)
create_file_chunk digest storage querier req = do
  valid ← validate_hash digest req
  checked storage querier req valid
