-- ===== src/Routes/Owners.antt =====
-- Whose file a `POST /my/files` creates.
use arbokcore.Prelude.{ℕ, Text, text, Option, List, none, some, false, ◌≡◌, refl}
use arbokcore.Prelude.Int.{pos}
use arbokcore.Api.{Response, build_response, parser_error_response}
use arbokcore.Files.{FileMetadata, status_uploading}
use arbokcore.Files.Chunks.{calculate_chunks}
use arbokcore.Files.Requests.{MetadataRequest, MetadataTokenResponse}
use arbokcore.Files.Service.{prepare_file_for_upload}
use arbokcore.Files.Service.Uploads.{
  Stored, first_version, upload_answer, accepted, rejected, Prepared,
  prepare_file_for_upload-Handled,
}
use arbokcore.Routes.{Answer, json, created, upload_request, post_file_metadata}
use arbokcore.Tokens.{Token, short_expiry_duration}
use arbokcore.Tokens.Repository.{QueryMapper}
use arbokcore.World.{World, Tables, Outcome, ok, continue}

-- The ways in which the request of a user can end.
pub data Posted (user_id : Text) (req : MetadataRequest) (before : Tables) (now : ℕ)
    (run : Outcome (Answer MetadataTokenResponse) × World) : Type 0 where
  owned :
      (id : Text) (token : Token) (metadata : FileMetadata)
      → metadata ≡ first_version (upload_request user_id req) id now
      → metadata.user_id ≡ user_id
      → metadata.upload_status ≡ status_uploading
      → metadata.current_flag ≡ false
      → metadata.n_chunks ≡ req.chunks
      → calculate_chunks req.file_size ≡ req.chunks
      → Stored before now metadata run.1.tables token
      → run.0
        ≡ ok (
            json
              (pos 201)
              (build_response none (some (upload_answer (upload_request user_id req) id token)))
              (some (record {
                name = text "stream_token";
                val = token.access_token;
                max_age = pos short_expiry_duration;
              })))
      → Posted user_id req before now run
  declined :
      (e : Text)
      → run.0 ≡ ok (json (parser_error_response e).http_status (build_response (some e) none) none)
      → run.1.tables ≡ before
      → Posted user_id req before now run

created-Posted :
    (user_id : Text) (req : MetadataRequest) (before : Tables) (now : ℕ)
    (fresh : List (Option Text)) (run : Outcome (Response MetadataTokenResponse) × World)
    → Prepared (upload_request user_id req) before now fresh run
    → Posted user_id req before now (continue run.0 created run.1)
unfolding created build_response
created-Posted user_id req before now fresh run (accepted id token h g d s) = rw h (
    owned id token (first_version (upload_request user_id req) id now) refl refl refl refl refl g s
      refl)
created-Posted user_id req before now fresh run (rejected e h k) = rw h (declined e refl k)

-- `PostFileMetadata` with a token, for a body that `Bind` has read, never panics and returns no Go
-- error. Either one metadata row has been added, which is the token's resource's and no other
-- user's, is uploading, is not the current version and has the request's number of
-- chunks, and one stream token of that user;
-- the answer is 201 and sets the stream token as a cookie. Or the answer has the status of a coded
-- error, sets no cookie, and the tables are as they were.
pub post_file_metadata-Posted :
    (mq tq : QueryMapper) (req : MetadataRequest) (token : Token) (w : World)
    → Posted token.resource_id req w.tables w.now
        (post_file_metadata mq tq (some req) (some token) w)
unfolding post_file_metadata
post_file_metadata-Posted mq tq req token w =
    let user_req = upload_request token.resource_id req in
    created-Posted token.resource_id req w.tables w.now w.fresh
      (prepare_file_for_upload mq tq user_req w) (prepare_file_for_upload-Handled mq tq user_req w)
