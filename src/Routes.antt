-- ===== src/Routes.antt =====
-- web/routes/metadatahandler.go and web/routes/chunkhandler.go: the handlers, after the middlewares.
-- The token is what the middleware has put in the context, if it has; a body that `Bind` has read is
-- `some`.
pub mod Server
pub mod Downloading
pub mod Owners
pub mod Events
use arbokcore.Prelude.{
  ℕ, Text, text, ◌==◌, ◌++◌, Option, none, some, List, [], ◌∷◌, Bool, true, false, if◌then◌else◌,
}
use arbokcore.Prelude.Int.{ℤ, pos}
use arbokcore.Prelude.Decimal.{atoi}
use arbokcore.Api.{Response, ErrorResponse, build_response}
use arbokcore.BlobStore.{BlobStorage}
use arbokcore.Files.{CacheMetadata, FilesWithChunks, FileInfoResponse, status_uploading}
use arbokcore.Files.ChunkUpload.{FileChunkRequest, ChunkUploadResponse, create_file_chunk}
use arbokcore.Files.Downloads.{download, read_files}
use arbokcore.Files.Listing.{PageOpts, Listing, list_files_for_user}
use arbokcore.Files.Ordered.{get_file_chunks, list_ordered_file_chunks}
use arbokcore.Files.Repository.Sql.{Order}
use arbokcore.Files.Requests.{
  Codec, UserFileDevice, MetadataRequest, FileUpdateMetadataRequest, MetadataTokenResponse,
}
use arbokcore.Files.Service.{mark_upload_complete, prepare_file_for_upload, update_file_metadata}
use arbokcore.Tokens.{Token}
use arbokcore.Tokens.Repository.{QueryMapper}
use arbokcore.World.{
  World, Done, Go, Outcome, ok, err, panic, Result, value, error, pure, fail, crash, attempt, call,
  ◌>>=◌, ◌>>◌,
}

-- The answer of a handler: a status alone, a status with a body, or a file under a name. A cookie has
-- a key, a value and an age in seconds.
pub record Cookie : Type 0 where
  pub name : Text
  pub val : Text
  pub max_age : ℤ

pub data Answer {ℓ} (A : Type ℓ) : Type ℓ where
  no_content : ℕ → Answer A
  json : ℤ → Response A → Option Cookie → Answer A
  attachment : Text → Text → Text → Answer A

-- `c.JSON(resp.Error.HttpStatus, resp)`, which dereferences the error.
abbrev pub error_json {ℓ} : {A : Type ℓ} → Response A → Go (Answer A)
error_json resp = elim resp.error [ none ↦ crash | some e ↦ pure (json e.http_status resp none) ]

abbrev pub respond {ℓ} : {A : Type ℓ} → ℕ → Option Cookie → Response A → Go (Answer A)
respond status cookie resp =
    if resp.success then pure (json (pos status) resp cookie) else error_json resp

unfoldable pub mark_complete_for :
    Codec CacheMetadata → QueryMapper → Text → Option Token → Go (Answer Done)
mark_complete_for codec querier file_id none = pure (no_content 401)
mark_complete_for codec querier file_id (some token) =
    if token.resource_id == file_id
    then (do
      resp ← mark_upload_complete codec querier (record {
        user_id = [];
        device_id = token.device_id;
        file_id = token.resource_id;
        chunk_id = [];
      })
      respond 200 none resp)
    else pure (no_content 400)

unfoldable pub stream_cookie : MetadataTokenResponse → Cookie
stream_cookie answer = record {
  name = text "stream_token";
  val = answer.stream_token;
  max_age = pos answer.expires_in;
}

-- A success without a payload is dereferenced.
unfoldable pub created : Response MetadataTokenResponse → Go (Answer MetadataTokenResponse)
unfolding stream_cookie
created resp =
    if resp.success
    then (elim resp.payload [
      | none ↦ crash
      | some answer ↦ pure (json (pos 201) resp (some (stream_cookie answer)))
    ])
    else error_json resp

abbrev pub upload_request : Text → MetadataRequest → MetadataRequest
upload_request user_id req = record {
  user_id = user_id;
  file_name = req.file_name;
  file_type = req.file_type;
  file_size = req.file_size;
  digest = req.digest;
  upload_status = status_uploading;
  chunks = req.chunks;
  access_token = [];
}

unfoldable pub post_file_metadata :
    QueryMapper
    → QueryMapper
    → Option MetadataRequest
    → Option Token
    → Go (Answer MetadataTokenResponse)
unfolding created
post_file_metadata meta_querier token_querier none token = pure (no_content 400)
post_file_metadata meta_querier token_querier (some req) none = pure (no_content 401)
post_file_metadata meta_querier token_querier (some req) (some token) = do
  resp ← prepare_file_for_upload meta_querier token_querier (upload_request token.resource_id req)
  created resp

unfoldable pub chunks_answer : Result FilesWithChunks → Go (Answer FilesWithChunks)
chunks_answer (error e) = error_json (build_response (some e) none)
chunks_answer (value file) = pure (json (pos 200) (build_response none (some file)) none)

unfoldable pub get_chunks : Order → QueryMapper → Text → Option Token → Go (Answer FilesWithChunks)
get_chunks order querier file_id none = pure (no_content 403)
get_chunks order querier file_id (some token) =
    if file_id == []
    then pure (no_content 400)
    else (do r ← attempt (get_file_chunks order querier file_id); chunks_answer r)

-- `strconv.Atoi` of a query parameter, 0 where it is no number.
unfoldable pub number_or_zero : ℤ × Bool → ℤ
number_or_zero (n, true) = n
number_or_zero (n, false) = pos 0

unfoldable pub list_files_with_metadata :
    (ℕ → ℕ) → Order → QueryMapper → Text → Text → Option Token → Go (Answer Listing)
list_files_with_metadata cap order querier offset limit none = pure (no_content 403)
list_files_with_metadata cap order querier offset limit (some token) = do
  resp ←
      list_files_for_user cap order querier token.resource_id
        (record { offset = number_or_zero (atoi offset); limit = number_or_zero (atoi limit) })
  respond 200 none resp

unfoldable pub patch_file_metadata :
    QueryMapper
    → QueryMapper
    → Option FileUpdateMetadataRequest
    → Option Token
    → Go (Answer MetadataTokenResponse)
patch_file_metadata meta_querier token_querier none token = pure (no_content 400)
patch_file_metadata meta_querier token_querier (some req) none = pure (no_content 403)
patch_file_metadata meta_querier token_querier (some req) (some token) = do
  resp ←
      update_file_metadata meta_querier token_querier (record req { user_id = token.resource_id })
  respond 200 none resp

unfoldable pub with_file :
    (Text → Text)
    → BlobStorage
    → QueryMapper
    → FileChunkRequest
    → Result Done
    → Go (Answer ChunkUploadResponse)
with_file digest storage querier req (error e) = pure (no_content 500)
with_file digest storage querier req (value u) = do
  resp ← create_file_chunk digest storage querier req
  respond 201 none resp

-- The file of the form: `FormFile` and `Open` may fail.
unfoldable pub with_form :
    (Text → Text)
    → BlobStorage
    → QueryMapper
    → FileChunkRequest
    → Result Done
    → Go (Answer ChunkUploadResponse)
with_form digest storage querier req (error e) = pure (no_content 400)
with_form digest storage querier req (value u) = do
  opened ← attempt call
  with_file digest storage querier req opened

unfoldable pub upsert_bound :
    (Text → Text)
    → BlobStorage
    → QueryMapper
    → Option FileChunkRequest
    → Text
    → Text
    → Go (Answer ChunkUploadResponse)
upsert_bound digest storage querier none file_id user_id = pure (no_content 500)
upsert_bound digest storage querier (some req) file_id user_id = do
  form ← attempt call
  with_form digest storage querier (record req { file_id = file_id; user_id = user_id }) form

unfoldable pub upsert_chunks :
    (Text → Text)
    → BlobStorage
    → QueryMapper
    → Option FileChunkRequest
    → Option Token
    → Go (Answer ChunkUploadResponse)
upsert_chunks digest storage querier req none = pure (no_content 403)
upsert_chunks digest storage querier req (some token) = elim token.user_id [
  | none ↦ pure (no_content 403)
  | some user_id ↦ upsert_bound digest storage querier req token.resource_id user_id
]

-- ./tmp/outdir/<name>
abbrev pub output_path : Text → Text
output_path name = text "./tmp/outdir/" ++ name

unfoldable pub written : Text → Text → Result Done → Go (Answer Done)
written content name (error e) = pure (no_content 500)
written content name (value u) = pure (attachment (output_path name) name content)

unfoldable pub output_made : Text → Text → Result Done → Go (Answer Done)
unfolding written
output_made content name (error e) = pure (no_content 500)
output_made content name (value u) = do r ← attempt call; written content name r

-- The file is written to the output directory, sent, and removed.
unfoldable pub send_file : FileInfoResponse → Result Text → Go (Answer Done)
unfolding output_made
send_file info (error e) = pure (no_content 500)
send_file info (value content) = do r ← attempt call; output_made content info.name r

unfoldable pub send_ordered :
    (ℤ → List Text → Go Text) → Result (List Text × FileInfoResponse) → Go (Answer Done)
unfolding send_file
send_ordered reader (error e) = error_json (build_response (some e) none)
send_ordered reader (value (urls, info)) = do r ← attempt (reader info.size urls); send_file info r

-- `DownloadFile` and `DownloadFileV2` differ in the reader.
unfoldable pub download_with :
    (ℤ → List Text → Go Text) → Order → QueryMapper → Text → Option Token → Go (Answer Done)
unfolding send_ordered
download_with reader order querier file_id none = pure (no_content 401)
download_with reader order querier file_id (some token) = do
  r ← attempt (list_ordered_file_chunks order querier file_id token.resource_id)
  send_ordered reader r

unfoldable pub download_file : Order → QueryMapper → Text → Option Token → Go (Answer Done)
unfolding download_with
download_file = download_with read_files

unfoldable pub download_file_v2 : Order → QueryMapper → Text → Option Token → Go (Answer Done)
unfolding download_with
download_file_v2 = download_with download
