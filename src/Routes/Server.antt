-- ===== src/Routes/Server.antt =====
-- The routes of cmd/server/main.go: each handler behind its middlewares. The path's parameter is
-- `file_id_param` of the request.
pub mod Eof
use arbokcore.Prelude.{ℕ, Text, Option, none, some}
use arbokcore.BlobStore.{BlobStorage}
use arbokcore.Files.{CacheMetadata, FilesWithChunks}
use arbokcore.Files.ChunkUpload.{FileChunkRequest, ChunkUploadResponse}
use arbokcore.Files.Listing.{Listing}
use arbokcore.Files.Repository.Sql.{Order}
use arbokcore.Files.Requests.{
  Codec, MetadataRequest, FileUpdateMetadataRequest, MetadataTokenResponse,
}
use arbokcore.Middlewares.{
  Request, Reply, no_content, next, validate_access_token, validate_stream_token,
  add_token_from_url_to_header,
}
use arbokcore.Routes.{
  Answer, mark_complete_for, post_file_metadata, get_chunks, list_files_with_metadata,
  patch_file_metadata, upsert_chunks, download_file, download_file_v2,
}
use arbokcore.Tokens.{Token}
use arbokcore.Tokens.Repository.{QueryMapper}
use arbokcore.World.{Done, Go, pure, ◌>>=◌}

unfoldable pub after_guard {ℓ} :
    {A : Type ℓ} → (Option Token → Go (Answer A)) → Reply → Go (Answer A)
after_guard handler (no_content status) = pure (Answer.no_content status)
after_guard handler (next token) = handler (some token)

-- Behind the stream token: PUT of the end of an upload, and PATCH of its chunks. `store_qs` has the
-- statements of the tables that the route writes.
module _ (tokens_qs store_qs : QueryMapper) where
  unfoldable pub put_eof : Codec CacheMetadata → Request → Go (Answer Done)
  put_eof codec req = do
    reply ← validate_stream_token tokens_qs req
    after_guard (mark_complete_for codec store_qs req.file_id_param) reply

  unfoldable pub patch_chunks :
      (Text → Text)
      → BlobStorage
      → Option FileChunkRequest
      → Request
      → Go (Answer ChunkUploadResponse)
  patch_chunks digest storage body req = do
    reply ← validate_stream_token tokens_qs req
    after_guard (upsert_chunks digest storage store_qs body) reply

-- Behind the access token: GET and PATCH of a file, POST and GET of the files, and the downloads,
-- which first take the tokens from the url.
module _ (unbound : Text) (order : Order) (tokens_qs meta_qs : QueryMapper) where
  unfoldable pub get_file : Request → Go (Answer FilesWithChunks)
  get_file req = do
    reply ← validate_access_token unbound tokens_qs req
    after_guard (get_chunks order meta_qs req.file_id_param) reply

  unfoldable pub patch_file :
      Option FileUpdateMetadataRequest → Request → Go (Answer MetadataTokenResponse)
  patch_file body req = do
    reply ← validate_access_token unbound tokens_qs req
    after_guard (patch_file_metadata meta_qs tokens_qs body) reply

  unfoldable pub post_files : Option MetadataRequest → Request → Go (Answer MetadataTokenResponse)
  post_files body req = do
    reply ← validate_access_token unbound tokens_qs req
    after_guard (post_file_metadata meta_qs tokens_qs body) reply

  unfoldable pub get_files : (ℕ → ℕ) → Text → Text → Request → Go (Answer Listing)
  get_files cap offset limit req = do
    reply ← validate_access_token unbound tokens_qs req
    after_guard (list_files_with_metadata cap order meta_qs offset limit) reply

  unfoldable pub get_download : Request → Go (Answer Done)
  get_download req = do
    signed ← add_token_from_url_to_header req
    reply ← validate_access_token unbound tokens_qs signed
    after_guard (download_file order meta_qs req.file_id_param) reply

  unfoldable pub get_download_v2 : Request → Go (Answer Done)
  get_download_v2 req = do
    signed ← add_token_from_url_to_header req
    reply ← validate_access_token unbound tokens_qs signed
    after_guard (download_file_v2 order meta_qs req.file_id_param) reply
