-- ===== src/Files.antt =====
-- core/files/model.go and the response types of core/files/service.metadata.go.
-- A `time.Time` is the number of nanoseconds since Go's zero time, so the zero value is 0.
pub mod Chunks
pub mod Info
pub mod Repository
pub mod Listing
pub mod Ordered
pub mod Requests
pub mod Service
pub mod ChunkUpload
pub mod Downloads
use arbokcore.Prelude.{ℕ, ◌*◌, Text, text, Option, Bool, Dict}
use arbokcore.Prelude.Int.{ℤ}

abbrev pub status_uploading : Text
status_uploading = text "uploading"

abbrev pub status_failed : Text
status_failed = text "failed"

abbrev pub status_completed : Text
status_completed = text "completed"

pub record FileMetadata : Type 0 where
  pub id : Text
  pub user_id : Text
  pub filename : Text
  pub file_size : ℤ
  pub file_type : Text
  pub file_hash : Text
  pub n_chunks : ℤ
  pub current_flag : Bool
  pub upload_status : Text
  pub prev_id : Option Text
  pub end_date : Option ℕ
  pub created_at : ℕ
  pub updated_at : ℕ

pub record CacheMetadata : Type 0 where
  pub user_id : Text
  pub prev_id : Option Text
  pub device_id : Text
  pub id : Text

pub record UserFile : Type 0 where
  pub user_id : Text
  pub file_id : Text
  pub chunk_id : ℤ
  pub chunk_blob_url : Text
  pub chunk_hash : Text
  pub next_chunk_id : Option ℤ
  pub created_at : ℕ
  pub updated_at : ℕ

pub record FilesWithChunks : Type 0 where
  pub id : Text
  pub user_id : Text
  pub filename : Text
  pub file_size : ℤ
  pub file_type : Text
  pub file_hash : Text
  pub n_chunks : ℤ
  pub current_flag : Bool
  pub upload_status : Text
  pub file_id : Text
  pub chunk_id : ℤ
  pub chunk_blob_url : Text
  pub chunk_hash : Text
  pub next_chunk_id : Option ℤ
  pub prev_id : Option Text
  pub end_date : Option ℕ
  pub created_at : ℕ
  pub updated_at : ℕ

pub record FileInfoResponse : Type 0 where
  pub id : Text
  pub name : Text
  pub hash : Text
  pub size : ℤ
  pub file_type : Text
  pub current_flag : Bool
  pub chunks : Dict FilesWithChunks
  pub n_chunks : ℤ
  pub user_id : Text
