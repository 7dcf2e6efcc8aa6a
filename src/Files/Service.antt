-- ===== src/Files/Service.antt =====
-- `MarkUploadComplete`, `PrepareFileForUpload` and `UpdateFileMetadata` of
-- core/files/service.metadata.go.
pub mod Uploads
pub mod Versions
pub mod Completion
use arbokcore.Prelude.{
  ℕ, Text, text, ◌==◌, Option, none, some, List, [], ◌∷◌, ◌++◌, Bool, true, false, not,
  if◌then◌else◌,
}
use arbokcore.Prelude.Int.{ℤ, eqb_ℤ}
use arbokcore.Api.{Response, build_response}
use arbokcore.Files.{FileMetadata, CacheMetadata, status_uploading}
use arbokcore.Files.Requests.{
  Codec, UserFileDevice, MetadataRequest, FileUpdateMetadataRequest, MetadataTokenResponse,
}
use arbokcore.Files.Chunks.{calculate_chunks}
use arbokcore.Files.Repository.{find_by, find_by_hash, create_metadata_token}
use arbokcore.Files.Repository.Sql.{FindKv}
use arbokcore.Tokens.{
  Token, with_user_id, with_default_expiry, resource_type_stream, short_expiry_duration,
}
use arbokcore.Tokens.Repository.{QueryMapper, new_token}
use arbokcore.Queuer.{Payload, enqueue_msg, metadata_file_update_queue}
use arbokcore.World.{
  World, Done, Go, Outcome, ok, err, panic, Result, value, error, pure, fail, crash, attempt,
  get_now, next_fresh, ◌>>=◌, ◌>>◌,
}

abbrev pub equals : Text → Text → FindKv
equals key val = record { key = key; place_holder = []; operator = text "="; val = val }

abbrev pub refused {ℓ} : {A : Type ℓ} → Text → Go (Response A)
refused e = pure (build_response (some e) none)

unfoldable pub enqueue_encoded : Result Text → Go Done
enqueue_encoded (error e) = fail e
enqueue_encoded (value message) =
    enqueue_msg metadata_file_update_queue [] (record { message = message; key = [] })

unfoldable pub announced : Result Done → Go (Response Done)
announced (error e) = refused (text "internal_error:2021:500")
announced (value u) = pure (build_response none (some tt))

abbrev pub cached_of : UserFileDevice → FileMetadata → CacheMetadata
cached_of device metadata = record {
  user_id = metadata.user_id;
  prev_id = metadata.prev_id;
  device_id = device.device_id;
  id = device.file_id;
}

unfoldable pub announce :
    Codec CacheMetadata → UserFileDevice → Result (List FileMetadata) → Go (Response Done)
unfolding announced
announce codec device (error e) = refused (text "file_not_found:2019:404")
announce codec device (value []) = refused (text "file_not_found:2019:404")
announce codec device (value (metadata ∷ rest)) = do
  r ← attempt (enqueue_encoded (codec.encode (cached_of device metadata)))
  announced r

-- The payload `{"eof": true}` of a success is the unit.
unfoldable pub mark_upload_complete :
    Codec CacheMetadata → QueryMapper → UserFileDevice → Go (Response Done)
mark_upload_complete codec querier device = do
  r ← attempt (
      find_by querier
        (equals (text "id") device.file_id ∷ equals (text "upload_status") status_uploading ∷ []))
  announce codec device r

unfoldable pub new_stream_token : Text → Text → Go (Result Token)
unfolding new_token with_default_expiry with_user_id
new_stream_token file_id user_id = do
  now ← get_now
  attempt (
      new_token file_id resource_type_stream
        (with_default_expiry now ∷ with_user_id (some user_id) ∷ []))

unfoldable pub stored_answer :
    MetadataTokenResponse → Result Done → Go (Response MetadataTokenResponse)
stored_answer answer (error e) = refused (text "internal_server_error:2011:500")
stored_answer answer (value u) = pure (build_response none (some answer))

unfoldable pub store_with :
    QueryMapper
    → QueryMapper
    → FileMetadata
    → Text
    → (Token → MetadataTokenResponse)
    → Result Token
    → Go (Response MetadataTokenResponse)
unfolding stored_answer
store_with meta_querier token_querier metadata token_error answer (error e) = refused token_error
store_with meta_querier token_querier metadata token_error answer (value token) = do
  s ← attempt (create_metadata_token meta_querier token_querier metadata token)
  stored_answer (answer token) s

-- A version is stored with a stream token, and the answer is built from the token.
unfoldable pub store_version :
    QueryMapper
    → QueryMapper
    → FileMetadata
    → Text
    → (Token → MetadataTokenResponse)
    → Go (Response MetadataTokenResponse)
store_version meta_querier token_querier metadata token_error answer = do
  r ← new_stream_token metadata.id metadata.user_id
  store_with meta_querier token_querier metadata token_error answer r

abbrev pub new_metadata : MetadataRequest → Text → ℕ → FileMetadata
new_metadata req id now = record {
  id = id;
  user_id = req.user_id;
  filename = req.file_name;
  file_size = req.file_size;
  file_type = req.file_type;
  file_hash = req.digest;
  n_chunks = calculate_chunks req.file_size;
  current_flag = false;
  upload_status = req.upload_status;
  prev_id = none;
  end_date = none;
  created_at = now;
  updated_at = now;
}

abbrev pub prepared_answer : FileMetadata → Token → MetadataTokenResponse
prepared_answer metadata token = record {
  access_token = [];
  stream_token = token.access_token;
  prev_id = none;
  file_id = metadata.id;
  file_type = metadata.file_type;
  digest = metadata.file_hash;
  upload_status = status_uploading;
  created_at = token.created_at;
  expires_in = short_expiry_duration;
}

unfoldable pub prepare_with :
    QueryMapper → QueryMapper → MetadataRequest → Option Text → Go (Response MetadataTokenResponse)
prepare_with meta_querier token_querier req none = refused (text "id_gen_failed:2002:500")
prepare_with meta_querier token_querier req (some id) = do
  now ← get_now
  if eqb_ℤ (calculate_chunks req.file_size) req.chunks
      then store_version meta_querier token_querier (new_metadata req id now)
          (text "internal_server_error:2010:500") (prepared_answer (new_metadata req id now))
      else refused (text "chunks_size_invalid:2005:422")

unfoldable pub unless_found :
    QueryMapper → QueryMapper → MetadataRequest → Option Text → Go (Response MetadataTokenResponse)
unless_found meta_querier token_querier req (some e) = refused (text "duplicate:2014:422")
unless_found meta_querier token_querier req none = do
  o ← next_fresh
  prepare_with meta_querier token_querier req o

unfoldable pub prepare_file_for_upload :
    QueryMapper → QueryMapper → MetadataRequest → Go (Response MetadataTokenResponse)
prepare_file_for_upload meta_querier token_querier req = do
  found ← find_by_hash meta_querier req.digest
  unless_found meta_querier token_querier req found.1

abbrev pub next_metadata : FileUpdateMetadataRequest → FileMetadata → Text → ℕ → FileMetadata
next_metadata req prev id now = record {
  id = id;
  user_id = req.user_id;
  filename = prev.filename;
  file_size = req.file_size;
  file_type = prev.file_type;
  file_hash = req.digest;
  n_chunks = req.chunks;
  current_flag = false;
  upload_status = status_uploading;
  prev_id = some req.file_id;
  end_date = none;
  created_at = now;
  updated_at = now;
}

abbrev pub updated_answer : FileMetadata → Token → MetadataTokenResponse
updated_answer metadata token = record {
  access_token = [];
  stream_token = token.access_token;
  prev_id = metadata.prev_id;
  file_id = metadata.id;
  file_type = [];
  digest = [];
  upload_status = status_uploading;
  created_at = token.created_at;
  expires_in = short_expiry_duration;
}

unfoldable pub next_with :
    QueryMapper
    → QueryMapper
    → FileUpdateMetadataRequest
    → FileMetadata
    → Option Text
    → Go (Response MetadataTokenResponse)
next_with meta_querier token_querier req prev none = refused (text "id_gen_failed:2002:500")
next_with meta_querier token_querier req prev (some id) = do
  now ← get_now
  if prev.file_hash == req.digest
      then refused (text "duplicate:2014:422")
      else store_version meta_querier token_querier (next_metadata req prev id now)
          (text "internal_server_error:2011:500") (updated_answer (next_metadata req prev id now))

unfoldable pub next_version :
    QueryMapper
    → QueryMapper
    → FileUpdateMetadataRequest
    → Result (List FileMetadata)
    → Go (Response MetadataTokenResponse)
next_version meta_querier token_querier req (error e) = refused (text "file_not_found:2022:422")
next_version meta_querier token_querier req (value []) = refused (text "file_not_found:2023:404")
next_version meta_querier token_querier req (value (prev ∷ rest)) = do
  o ← next_fresh
  next_with meta_querier token_querier req prev o

unfoldable pub update_file_metadata :
    QueryMapper → QueryMapper → FileUpdateMetadataRequest → Go (Response MetadataTokenResponse)
update_file_metadata meta_querier token_querier req =
    if eqb_ℤ (calculate_chunks req.file_size) req.chunks
    then (do
      r ← attempt (find_by meta_querier (equals (text "id") req.file_id ∷ []))
      next_version meta_querier token_querier req r)
    else refused (text "invalid_file_data:2006:422")
