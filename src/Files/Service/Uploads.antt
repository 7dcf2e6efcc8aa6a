-- ===== src/Files/Service/Uploads.antt =====
-- What `PrepareFileForUpload` and `UpdateFileMetadata` store, and what they refuse.
use arbokcore.Prelude.{
  lookup, ℕ, ◌+◌, Text, text, ◌==◌, Option, none, some, Option-cases, [], ◌∷◌, ◌++◌, Bool, false,
  List, ◌*◌, ap, sym, ◌∙◌, if◌then◌else◌, ltb, ◌≡◌, ◌⊎◌, inl, inr, refl, subst, arith, Bool-cases,
}
use arbokcore.Prelude.Int.{eqb_ℤ, eqb_ℤ_iff}
use arbokcore.Api.{Response, build_response}
use arbokcore.Files.{FileMetadata}
use arbokcore.Files.Chunks.{calculate_chunks}
use arbokcore.Files.Repository.{
  err_stmt_not_found, err_duplicate_file, find_by_hash, create_metadata_token,
}
use arbokcore.Files.Repository.Batch.{create_metadata_token_atomic}
use arbokcore.Files.Repository.Sql.{count_hash}
use arbokcore.Tokens.{
  Token, validate_resource_type, to_lower, access_expiry_duration, long_expiry_duration,
  resource_type_stream,
}
use arbokcore.Tokens.Repository.{QueryMapper, get_query}
use arbokcore.Files.Requests.{MetadataRequest, MetadataTokenResponse}
use arbokcore.Files.Service.{
  new_stream_token, store_version, stored_answer, store_with, prepare_with, unless_found,
  new_metadata, prepared_answer, prepare_file_for_upload,
}
use arbokcore.World.{
  bind-ok, World, Tables, Outcome, ok, value, error, first, others, Outcome-cases,
}

-- The stream token of a file, from the generator's two texts.
abbrev pub stream_token : FileMetadata → ℕ → Text → Text → Token
stream_token metadata now access_token refresh_token = record {
  resource_id = metadata.id;
  resource_type = resource_type_stream;
  access_token = access_token;
  refresh_token = refresh_token;
  token_type = [];
  user_id = some metadata.user_id;
  device_id = [];
  access_expires_at = now + access_expiry_duration;
  refresh_expires_at = now + long_expiry_duration;
  created_at = now;
  updated_at = now;
}

-- The row of a first version, and the answer to its request.
abbrev pub first_version : MetadataRequest → Text → ℕ → FileMetadata
first_version req id now = record {
  id = id;
  user_id = req.user_id;
  filename = req.file_name;
  file_size = req.file_size;
  file_type = req.file_type;
  file_hash = req.digest;
  n_chunks = req.chunks;
  current_flag = false;
  upload_status = req.upload_status;
  prev_id = none;
  end_date = none;
  created_at = now;
  updated_at = now;
}

abbrev pub upload_answer : MetadataRequest → Text → Token → MetadataTokenResponse
upload_answer req id token = record {
  access_token = [];
  stream_token = token.access_token;
  prev_id = none;
  file_id = id;
  file_type = req.file_type;
  digest = req.digest;
  upload_status = text "uploading";
  created_at = token.created_at;
  expires_in = 20 * 60 * 1000000000;
}

-- The generator's next texts are an id and the two of a token; or the two of a token.
abbrev pub Drawn : List (Option Text) → Text → Token → Type 0
Drawn fresh id token =
    (rest : List (Option Text)) × (fresh
      ≡ some id ∷ some token.access_token ∷ some token.refresh_token ∷ rest)

abbrev pub TokenDrawn : List (Option Text) → Token → Type 0
TokenDrawn fresh token =
    (rest : List (Option Text)) × (fresh
      ≡ some token.access_token ∷ some token.refresh_token ∷ rest)

first-others :
    {fresh : List (Option Text)} {a : Text} → first fresh ≡ some a → fresh ≡ some a ∷ others fresh
first-others {fresh} h = ground arith

-- What a version that is stored adds to the tables, and the token that goes with it.
pub record Stored (before : Tables) (now : ℕ) (metadata : FileMetadata) (after : Tables)
    (token : Token) : Type 0 where
  pub tables : after ≡ record before {
    file_metadatas = before.file_metadatas ++ metadata ∷ [];
    tokens = before.tokens ++ token ∷ [];
  }
  pub resource : token.resource_id ≡ metadata.id
  pub kind : token.resource_type ≡ resource_type_stream
  pub user : token.user_id ≡ some metadata.user_id
  pub access_end : token.access_expires_at ≡ now + access_expiry_duration
  pub refresh_end : token.refresh_expires_at ≡ now + long_expiry_duration
  pub created : token.created_at ≡ now

new_stream_token-cases :
    (metadata : FileMetadata) (w : World)
    → ((a : Text) × (b : Text) × ((new_stream_token metadata.id metadata.user_id w).0
          ≡ ok (value (stream_token metadata w.now a b)))
        × TokenDrawn w.fresh (stream_token metadata w.now a b))
      ⊎ ((e : Text) × ((new_stream_token metadata.id metadata.user_id w).0 ≡ ok (error e)))
unfolding new_stream_token validate_resource_type to_lower ◌==◌
new_stream_token-cases metadata w = elim (Option-cases (first w.fresh)) [
  | inl e ↦ inr (text "rand", ground (arith, e))
  | inr (a, e) ↦ elim (Option-cases (first (others w.fresh))) [
    | inl f ↦ inr (text "rand", ground (arith, e, f))
    | inr (b, f) ↦ inl (
      a,
      b,
      ground (arith, e, f),
      (others (others w.fresh), first-others e ∙ ap (λ l. some a ∷ l) (first-others f)),
    )
  ]
]

new_stream_token-keeps :
    (file_id user_id : Text) (w : World) → (new_stream_token file_id user_id w).1.tables ≡ w.tables
unfolding new_stream_token validate_resource_type to_lower ◌==◌
new_stream_token-keeps file_id user_id w = ground arith

-- A request to store a version either stores it and answers with its token, or refuses with a
-- coded error and leaves the tables as they were. `f` is the metadata of an id, and `drawn` says where
-- the id and the token come from.
pub data Handled (Guard : Type 0) (drawn : Text → Token → Type 0) (f : Text → FileMetadata)
    (answer : Text → Token → MetadataTokenResponse) (before : Tables) (now : ℕ)
    (run : Outcome (Response MetadataTokenResponse) × World) : Type 0 where
  accepted :
      (id : Text) (token : Token)
      → run.0 ≡ ok (build_response none (some (answer id token)))
      → Guard
      → drawn id token
      → Stored before now (f id) run.1.tables token
      → Handled Guard drawn f answer before now run
  rejected :
      (e : Text)
      → run.0 ≡ ok (build_response (some e) none)
      → run.1.tables ≡ before
      → Handled Guard drawn f answer before now run

stored-Handled :
    (mq tq : QueryMapper) (metadata : FileMetadata) (answer : Token → MetadataTokenResponse)
    (e a b : Text) (t : Tables) (now : ℕ) (fresh : List (Option Text)) (w : World)
    → w.tables ≡ t
    → TokenDrawn fresh (stream_token metadata now a b)
    → Handled Unit
        (λ _ token. TokenDrawn fresh token)
        (λ _. metadata)
        (λ _. answer)
        t
        now
        (store_with mq tq metadata e answer (value (stream_token metadata now a b)) w)
unfolding store_with stored_answer
stored-Handled mq tq metadata answer e a b t now fresh w k d =
    let token = stream_token metadata now a b in
    let c = create_metadata_token_atomic mq tq metadata token w in
    elim (Outcome-cases (create_metadata_token mq tq metadata token w).0) [
      | inl (u, h) ↦ accepted [] token (ground (arith, h)) tt d record {
        tables = ground (arith, h, k, c.1);
        resource = refl;
        kind = refl;
        user = refl;
        access_end = refl;
        refresh_end = refl;
        created = refl;
      }
      | inr (inl (x, h)) ↦
          rejected (text "internal_server_error:2011:500") (ground (arith, h))
            (ground (arith, h, k, c.1))
      | inr (inr h) ↦ absurd (c.0 h)
    ]

pub Handled-id :
    {Guard : Type 0} {f : Text → FileMetadata} {answer : Text → Token → MetadataTokenResponse}
    {t : Tables} {now : ℕ} {run : Outcome (Response MetadataTokenResponse) × World}
    {fresh : List (Option Text)} (id : Text)
    → Guard
    → first fresh ≡ some id
    → Handled Unit
        (λ _ token. TokenDrawn (others fresh) token)
        (λ _. f id)
        (λ _. answer id)
        t
        now
        run
    → Handled Guard (Drawn fresh) f answer t now run
Handled-id id g h (accepted i token r u (rest, d) s) =
    accepted id token r g (rest, first-others h ∙ ap (λ l. some id ∷ l) d) s
Handled-id id g h (rejected e r k) = rejected e r k

pub store_version-Handled :
    (mq tq : QueryMapper) (metadata : FileMetadata) (answer : Token → MetadataTokenResponse)
    (e : Text) (w : World)
    → Handled Unit
        (λ _ token. TokenDrawn w.fresh token)
        (λ _. metadata)
        (λ _. answer)
        w.tables
        w.now
        (store_version mq tq metadata e answer w)
unfolding store_version store_with
store_version-Handled mq tq metadata answer e w =
    let run = new_stream_token metadata.id metadata.user_id in
    let k = new_stream_token-keeps metadata.id metadata.user_id w in
    elim (new_stream_token-cases metadata w) [
      | inl (a, b, h, d) ↦
          rw (bind-ok run (store_with mq tq metadata e answer) w h)
            (stored-Handled mq tq metadata answer e a b w.tables w.now w.fresh (run w).1 k d)
      | inr (x, h) ↦ rw (bind-ok run (store_with mq tq metadata e answer) w h) (rejected e refl k)
    ]

find_by_hash-keeps :
    (querier : QueryMapper) (hash : Text) (w : World)
    → ((find_by_hash querier hash w).1.tables ≡ w.tables)
      × ((find_by_hash querier hash w).1.now ≡ w.now)
      × ((find_by_hash querier hash w).1.fresh ≡ w.fresh)
unfolding find_by_hash get_query
find_by_hash-keeps querier hash w = (ground arith, ground arith, ground arith)

find_by_hash-cases :
    (querier : QueryMapper) (hash : Text) (w : World)
    → (r : Bool × Option Text) × ((find_by_hash querier hash w).0 ≡ ok r)
unfolding find_by_hash get_query
find_by_hash-cases querier hash w = elim (Option-cases (lookup (text "FindByHash") querier)) [
  | inl e ↦ ((false, some err_stmt_not_found), ground (arith, e))
  | inr (stmt, e) ↦ elim (Option-cases (first w.answers)) [
    | inl a ↦
        let found = ltb 0 (count_hash hash w.tables.file_metadatas) in
        ((found, if found then some err_duplicate_file else none), ground (arith, e, a))
    | inr (x, a) ↦ ((false, none), ground (arith, e, a))
  ]
]

-- What `PrepareFileForUpload` does to the tables at the time `now`.
abbrev pub Prepared :
    MetadataRequest
    → Tables
    → ℕ
    → List (Option Text)
    → Outcome (Response MetadataTokenResponse) × World
    → Type 0
Prepared req t now fresh run =
    Handled (calculate_chunks req.file_size ≡ req.chunks) (Drawn fresh)
      (λ id. first_version req id now) (upload_answer req) t now run

prepare_with-Handled :
    (mq tq : QueryMapper) (req : MetadataRequest) (o : Option Text) (fresh : List (Option Text))
    (w : World)
    → first fresh ≡ o
    → others fresh ≡ w.fresh
    → Prepared req w.tables w.now fresh (prepare_with mq tq req o w)
unfolding prepare_with
prepare_with-Handled mq tq req none fresh w a b = rejected (text "id_gen_failed:2002:500") refl refl
prepare_with-Handled mq tq req (some id) fresh w a b =
    elim (Bool-cases (eqb_ℤ (calculate_chunks req.file_size) req.chunks)) [
      | inl e ↦
          let metadata = new_metadata req id w.now in
          let answer = prepared_answer metadata in
          let failed = text "internal_server_error:2010:500" in
          let run = store_version mq tq metadata failed answer w in
          let counted = (eqb_ℤ_iff (calculate_chunks req.file_size) req.chunks).0 e in
          rw (e) (
            Handled-id id counted a (
              subst
                (λ n.
                  Handled Unit (λ _ token. TokenDrawn (others fresh) token)
                    (λ _. record (first_version req id w.now) { n_chunks = n }) (λ _. answer)
                    w.tables w.now run)
                counted
                (subst
                  (λ l.
                    Handled Unit (λ _ token. TokenDrawn l token) (λ _. metadata) (λ _. answer)
                      w.tables w.now run)
                  (sym b) (store_version-Handled mq tq metadata answer failed w))))
      | inr e ↦ rw (e) (rejected (text "chunks_size_invalid:2005:422") refl refl)
    ]

unless_found-Handled :
    (mq tq : QueryMapper) (req : MetadataRequest) (o : Option Text) (w : World)
    → Prepared req w.tables w.now w.fresh (unless_found mq tq req o w)
unfolding unless_found
unless_found-Handled mq tq req (some e) w = rejected (text "duplicate:2014:422") refl refl
unless_found-Handled mq tq req none w =
    prepare_with-Handled mq tq req (first w.fresh) w.fresh (record w { fresh = others w.fresh })
      refl refl

-- `PrepareFileForUpload` never panics and returns no Go error. Either the number of chunks in the
-- request is the one that its size asks for, and one new metadata row with what the request says,
-- whose id is the generator's next text, and one stream token of its user with the generator's two
-- texts after that, have been added to the tables, and the answer has the token's text, the id, and
-- the type and the digest of the request; or the answer is a coded refusal, and the tables are as
-- they were.
pub prepare_file_for_upload-Handled :
    (mq tq : QueryMapper) (req : MetadataRequest) (w : World)
    → Prepared req w.tables w.now w.fresh (prepare_file_for_upload mq tq req w)
unfolding prepare_file_for_upload
prepare_file_for_upload-Handled mq tq req w =
    let found = find_by_hash mq req.digest in
    let c = find_by_hash-cases mq req.digest w in
    let k = find_by_hash-keeps mq req.digest w in
    let run = unless_found mq tq req c.0.1 (found w).1 in
    rw (bind-ok found (λ r. unless_found mq tq req r.1) w c.1) (
      subst (λ t. Prepared req t w.now w.fresh run) k.0
        (subst (λ n. Prepared req (found w).1.tables n w.fresh run) k.1
          (subst (λ l. Prepared req (found w).1.tables (found w).1.now l run) k.2
            (unless_found-Handled mq tq req c.0.1 (found w).1))))
