-- ===== src/Files/Requests.antt =====
-- The bodies of the requests and answers of core/files/service.metadata.go, and the encoding of what
-- goes on a queue.
use arbokcore.Prelude.{ℕ, Text, Option}
use arbokcore.Prelude.Int.{ℤ}
use arbokcore.World.{Result}

-- encoding/gob, for the messages of one type.
pub record Codec {ℓ} (A : Type ℓ) : Type ℓ where
  pub encode : A → Result Text
  pub decode : Text → Result A

pub record UserFileDevice : Type 0 where
  pub user_id : Text
  pub device_id : Text
  pub file_id : Text
  pub chunk_id : Text

pub record MetadataRequest : Type 0 where
  pub user_id : Text
  pub file_name : Text
  pub file_type : Text
  pub file_size : ℤ
  pub digest : Text
  pub upload_status : Text
  pub chunks : ℤ
  pub access_token : Text

pub record FileUpdateMetadataRequest : Type 0 where
  pub file_name : Text
  pub file_id : Text
  pub digest : Text
  pub chunks : ℤ
  pub file_size : ℤ
  pub file_type : Text
  pub upload_status : Text
  pub user_id : Text

pub record MetadataTokenResponse : Type 0 where
  pub access_token : Text
  pub stream_token : Text
  pub prev_id : Option Text
  pub file_id : Text
  pub file_type : Text
  pub digest : Text
  pub upload_status : Text
  pub created_at : ℕ
  pub expires_in : ℕ
