-- ===== src/Routes/Server/Eof.antt =====
-- Who can complete an upload.
use arbokcore.Prelude.{
  ℕ, ◌<◌, ◌==◌, eq_iff, Bool-cases, Option-cases, Text, text, Option, none, some, List, [], ◌∷◌,
  lookup, select, ◌≡◌, ◌⊎◌, inl, inr, refl, ap, ◌∙◌, sym, arith,
}
use arbokcore.Files.{CacheMetadata, FileMetadata}
use arbokcore.Files.Requests.{Codec, UserFileDevice}
use arbokcore.Files.Service.{mark_upload_complete}
use arbokcore.Files.Service.Completion.{
  clauses, Completed, queued, unqueued, uploading, mark_upload_complete-Completed,
}
use arbokcore.Files.Repository.Sql.{has_all}
use arbokcore.Api.{Response}
use arbokcore.Middlewares.{
  Request, Reply, next, no_content, or_else_text, get_bearer_token, stream_clause, with_device,
  with_bearers, validate_stream_token,
}
use arbokcore.Middlewares.Guards.{Admitted, validate_stream_token-Admitted}
use arbokcore.Routes.{error_json, respond, mark_complete_for}
use arbokcore.Routes.Server.{after_guard, put_eof}
use arbokcore.Tokens.{Token}
use arbokcore.Tokens.Repository.{
  QueryMapper, FindByClause, get_query, check_access, find_by_stream_token,
}
use arbokcore.World.Still.{Still, continue-Still, if-Still}
use arbokcore.World.{World, Done, Outcome, ok, first, Outcome-cases, bind-ok, bind-err}

-- A guard reads.
abbrev Reads : World → World → Type 0
Reads w v = (v.tables ≡ w.tables) × (v.queues ≡ w.queues)

find_by_stream_token-Reads :
    (querier : QueryMapper) (clause : FindByClause) (w : World)
    → Reads w (find_by_stream_token querier clause w).1
unfolding find_by_stream_token get_query check_access
find_by_stream_token-Reads querier clause w =
    elim (Option-cases (lookup (text "GetStreamToken") querier)) [
      | inl e ↦ (ground (arith, e), ground (arith, e))
      | inr (stmt, e) ↦ elim (Option-cases (first w.answers)) [
        | inr (x, a) ↦ (ground (arith, e, a), ground (arith, e, a))
        | inl a ↦ (ground (arith, e, a), ground (arith, e, a))
      ]
    ]

with_bearers-Reads :
    (querier : QueryMapper) (file_id : Text) (access stream : Option Text) (w : World)
    → Reads w (with_bearers querier file_id access stream w).1
unfolding with_bearers with_device
with_bearers-Reads querier file_id none stream w = (refl, refl)
with_bearers-Reads querier file_id (some a) none w = (refl, refl)
with_bearers-Reads querier file_id (some a) (some b) w =
    let k = find_by_stream_token-Reads querier (stream_clause a b file_id) w in
    (ground (arith, k), ground (arith, k))

validate_stream_token-Reads :
    (querier : QueryMapper) (req : Request) (w : World)
    → Reads w (validate_stream_token querier req w).1
unfolding validate_stream_token
validate_stream_token-Reads querier req w =
    let k =
      with_bearers-Reads querier (or_else_text req.file_id_query req.file_id_param)
        (get_bearer_token req.access_header) (get_bearer_token req.stream_header) w in
    (ground (arith, k), ground (arith, k))

abbrev device_of_token : Token → UserFileDevice
device_of_token token = record {
  user_id = [];
  device_id = token.device_id;
  file_id = token.resource_id;
  chunk_id = [];
}

-- A request that may complete the upload of a file.
pub record Authorized (req : Request) (w : World) : Type 0 where
  pub token : Token
  pub admitted : Admitted req w token
  pub resource : token.resource_id ≡ req.file_id_param
  pub metadata : FileMetadata
  pub rest : List FileMetadata
  pub in_progress : uploading (device_of_token token) w ≡ metadata ∷ rest

Completed-Authorized :
    (codec : Codec CacheMetadata) (req : Request) (token : Token) (w v : World)
    (run : Outcome (Response Done) × World)
    → Admitted req w token
    → Reads w v
    → token.resource_id ≡ req.file_id_param
    → Completed codec (device_of_token token) v run
    → (run.1.queues ≡ w.queues) ⊎ Authorized req w
Completed-Authorized codec req token w v run a k same (unqueued e h q t) = inl (q ∙ k.1)
Completed-Authorized codec req token w v run a k same (queued metadata rest message u e h q t) =
    inr (record {
      token = token;
      admitted = a;
      resource = same;
      metadata = metadata;
      rest = rest;
      in_progress =
          ap (λ t. select (has_all (clauses (device_of_token token))) t.file_metadatas) (sym k.0)
          ∙ u;
    })

error_json-Still {ℓ} : {A : Type ℓ} (resp : Response A) → Still (error_json resp)
error_json-Still resp w = elim (Option-cases resp.error) [
  | inl e ↦ rw e refl
  | inr found ↦ rw (found.1) refl
]

respond-Still {ℓ} : {A : Type ℓ} (status : ℕ) (resp : Response A) → Still (respond status none resp)
respond-Still status resp = if-Still resp.success _ _ (λ w. refl) (error_json-Still resp)

mark_complete_for-Authorized :
    (codec : Codec CacheMetadata) (querier : QueryMapper) (req : Request) (token : Token)
    (w v : World)
    → Admitted req w token
    → Reads w v
    → ((mark_complete_for codec querier req.file_id_param (some token) v).1.queues ≡ w.queues)
      ⊎ Authorized req w
unfolding mark_complete_for
mark_complete_for-Authorized codec querier req token w v a k =
    elim (Bool-cases (token.resource_id == req.file_id_param)) [
      | inr other ↦ rw other (inl k.1)
      | inl here ↦
          (let device = device_of_token token in
            let c = mark_upload_complete-Completed codec querier device v in
            let answered =
              Completed-Authorized codec req token w v (mark_upload_complete codec querier device v)
                a k ((eq_iff token.resource_id req.file_id_param).0 here) c in
            let still =
              continue-Still (respond 200 none) (mark_upload_complete codec querier device v).0
                (mark_upload_complete codec querier device v).1 (respond-Still 200) in
            rw (here, still) answered)
    ]

after_guard-Authorized :
    (codec : Codec CacheMetadata) (tokens_qs meta_qs : QueryMapper) (req : Request) (reply : Reply)
    (w : World)
    → 0 < w.now
    → (validate_stream_token tokens_qs req w).0 ≡ ok reply
    → ((after_guard
          (mark_complete_for codec meta_qs req.file_id_param)
          reply
          (validate_stream_token tokens_qs req w).1).1.queues
        ≡ w.queues)
      ⊎ Authorized req w
unfolding after_guard
after_guard-Authorized codec tokens_qs meta_qs req (no_content s) w pos h =
    inl (validate_stream_token-Reads tokens_qs req w).1
after_guard-Authorized codec tokens_qs meta_qs req (next token) w pos h =
    mark_complete_for-Authorized codec meta_qs req token w (validate_stream_token tokens_qs req w).1
      (validate_stream_token-Admitted tokens_qs req w pos h)
      (validate_stream_token-Reads tokens_qs req w)

-- Only an upload in progress is completed, and only with its token: once the clock has left Go's zero
-- time, a request for the end of an upload either leaves every queue as it was, or it carries a stream
-- token in the tables, which has not expired, for the file of its path, and this file is uploading.
pub put_eof-Authorized :
    (tokens_qs meta_qs : QueryMapper) (codec : Codec CacheMetadata) (req : Request) (w : World)
    → 0 < w.now
    → ((put_eof tokens_qs meta_qs codec req w).1.queues ≡ w.queues) ⊎ Authorized req w
unfolding put_eof
put_eof-Authorized tokens_qs meta_qs codec req w pos =
    let m = validate_stream_token tokens_qs req in
    elim (Outcome-cases (m w).0) [
      | inl (reply, e) ↦
          rw (bind-ok m (after_guard (mark_complete_for codec meta_qs req.file_id_param)) w e)
            (after_guard-Authorized codec tokens_qs meta_qs req reply w pos e)
      | inr (inl (x, e)) ↦
          rw (bind-err m (after_guard (mark_complete_for codec meta_qs req.file_id_param)) w e)
            (inl (validate_stream_token-Reads tokens_qs req w).1)
      | inr (inr e) ↦ inl (ground (arith, e, validate_stream_token-Reads tokens_qs req w))
    ]
