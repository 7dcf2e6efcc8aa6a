-- ===== src/Files/Service/Versions.antt =====
-- What `UpdateFileMetadata` stores, and what it refuses.
use arbokcore.Prelude.{
  lookup, ℕ, Text, text, ◌==◌, eq_iff, Option, none, some, Option-cases, List, [], ◌∷◌, ◌≡◌, ◌≢◌,
  ◌⊎◌, inl, inr, refl, subst, arith, Bool-cases, select, false, ◌*◌, sym,
}
use arbokcore.Prelude.Int.{eqb_ℤ, eqb_ℤ_iff}
use arbokcore.Api.{Response, build_response}
use arbokcore.Files.{FileMetadata}
use arbokcore.Files.Chunks.{calculate_chunks}
use arbokcore.Files.Repository.{err_stmt_not_found, find_by}
use arbokcore.Files.Repository.Sql.{has_all}
use arbokcore.Tokens.Repository.{QueryMapper, get_query}
use arbokcore.Files.Requests.{FileUpdateMetadataRequest, MetadataTokenResponse}
use arbokcore.Tokens.{Token}
use arbokcore.Files.Service.{
  store_version, equals, next_with, next_metadata, updated_answer, next_version,
  update_file_metadata,
}
use arbokcore.World.{
  bind-attempt-ok, bind-attempt-err, World, Tables, Outcome, ok, err, Result, value, error, first,
  others,
}
use arbokcore.Files.Service.Uploads.{
  Handled, Drawn, TokenDrawn, rejected, Handled-id, store_version-Handled,
}

-- The row of a version after another one, and the answer to its request.
abbrev pub later_version : FileUpdateMetadataRequest → FileMetadata → Text → ℕ → FileMetadata
later_version req prev id now = record {
  id = id;
  user_id = req.user_id;
  filename = prev.filename;
  file_size = req.file_size;
  file_type = prev.file_type;
  file_hash = req.digest;
  n_chunks = req.chunks;
  current_flag = false;
  upload_status = text "uploading";
  prev_id = some req.file_id;
  end_date = none;
  created_at = now;
  updated_at = now;
}

abbrev pub update_answer : FileUpdateMetadataRequest → Text → Token → MetadataTokenResponse
update_answer req id token = record {
  access_token = [];
  stream_token = token.access_token;
  prev_id = some req.file_id;
  file_id = id;
  file_type = [];
  digest = [];
  upload_status = text "uploading";
  created_at = token.created_at;
  expires_in = 20 * 60 * 1000000000;
}

-- What `UpdateFileMetadata` does to the tables at the time `now`.
abbrev pub Updated :
    FileUpdateMetadataRequest
    → FileMetadata
    → Tables
    → ℕ
    → List (Option Text)
    → Outcome (Response MetadataTokenResponse) × World
    → Type 0
Updated req prev t now fresh run =
    Handled (prev.file_hash ≢ req.digest) (Drawn fresh) (λ id. later_version req prev id now)
      (update_answer req) t now run

next_with-Handled :
    (mq tq : QueryMapper) (req : FileUpdateMetadataRequest) (prev : FileMetadata) (o : Option Text)
    (fresh : List (Option Text)) (w : World)
    → first fresh ≡ o
    → others fresh ≡ w.fresh
    → Updated req prev w.tables w.now fresh (next_with mq tq req prev o w)
unfolding next_with
next_with-Handled mq tq req prev none fresh w a b =
    rejected (text "id_gen_failed:2002:500") refl refl
next_with-Handled mq tq req prev (some id) fresh w a b =
    elim (Bool-cases (prev.file_hash == req.digest)) [
      | inl e ↦ rw (e) (rejected (text "duplicate:2014:422") refl refl)
      | inr e ↦
          let metadata = next_metadata req prev id w.now in
          let answer = updated_answer metadata in
          let failed = text "internal_server_error:2011:500" in
          rw (e) (
            Handled-id id (λ q. ground (arith, e, (eq_iff prev.file_hash req.digest).1 q)) a
              (subst
                (λ l.
                  Handled Unit (λ _ token. TokenDrawn l token) (λ _. metadata) (λ _. answer)
                    w.tables w.now (store_version mq tq metadata failed answer w))
                (sym b) (store_version-Handled mq tq metadata answer failed w)))
    ]

-- When its lookup has found a row of the file, `UpdateFileMetadata` either adds one new row that
-- names the file as its previous version, with one stream token of its user, where the digest
-- is another than the found row's; or it refuses and leaves the tables as they were.
pub next_version-Handled :
    (mq tq : QueryMapper) (req : FileUpdateMetadataRequest) (prev : FileMetadata)
    (rest : List FileMetadata) (w : World)
    → Updated req prev w.tables w.now w.fresh (next_version mq tq req (value (prev ∷ rest)) w)
unfolding next_version
next_version-Handled mq tq req prev rest w =
    next_with-Handled mq tq req prev (first w.fresh) w.fresh (record w { fresh = others w.fresh })
      refl refl

-- The rows that `FindBy` finds for an id.
abbrev rows_with : Text → Tables → List FileMetadata
rows_with id t = select (has_all (equals (text "id") id ∷ [])) t.file_metadatas

find_by-cases :
    (querier : QueryMapper) (id : Text) (w : World)
    → (((e : Text) × ((find_by querier (equals (text "id") id ∷ []) w).0 ≡ err e))
        ⊎ ((find_by querier (equals (text "id") id ∷ []) w).0 ≡ ok (rows_with id w.tables)))
      × ((find_by querier (equals (text "id") id ∷ []) w).1.tables ≡ w.tables)
      × ((find_by querier (equals (text "id") id ∷ []) w).1.now ≡ w.now)
      × ((find_by querier (equals (text "id") id ∷ []) w).1.fresh ≡ w.fresh)
unfolding find_by get_query
find_by-cases querier id w = (
  elim (Option-cases (lookup (text "FindBy") querier)) [
    | inl e ↦ inl (err_stmt_not_found, ground (arith, e))
    | inr (stmt, e) ↦ elim (Option-cases (first w.answers)) [
      | inr (x, a) ↦ inl (text "failed to construct prepared stmt", ground (arith, e, a))
      | inl a ↦ elim (Option-cases (first (others w.answers))) [
        | inr (x, b) ↦ inl (x, ground (arith, e, a, b))
        | inl b ↦ inr (ground (arith, e, a, b))
      ]
    ]
  ],
  ground arith,
  ground arith,
  ground arith,
)

-- What `UpdateFileMetadata` does: it refuses and leaves the tables as they were, or it stores a
-- version after the first row found for the file.
pub data Outdated (req : FileUpdateMetadataRequest) (t : Tables) (now : ℕ)
    (fresh : List (Option Text)) (run : Outcome (Response MetadataTokenResponse) × World)
    : Type 0 where
  refused_early :
      (e : Text)
      → run.0 ≡ ok (build_response (some e) none)
      → run.1.tables ≡ t
      → Outdated req t now fresh run
  found_row :
      (prev : FileMetadata) (rest : List FileMetadata)
      → rows_with req.file_id t ≡ prev ∷ rest
      → calculate_chunks req.file_size ≡ req.chunks
      → Updated req prev t now fresh run
      → Outdated req t now fresh run

after_find :
    (mq tq : QueryMapper) (req : FileUpdateMetadataRequest) (r : Result (List FileMetadata))
    (w : World) (t : Tables) (now : ℕ) (fresh : List (Option Text))
    → w.tables ≡ t
    → w.now ≡ now
    → w.fresh ≡ fresh
    → calculate_chunks req.file_size ≡ req.chunks
    → ((rows : List FileMetadata) → r ≡ value rows → rows_with req.file_id t ≡ rows)
    → Outdated req t now fresh (next_version mq tq req r w)
unfolding next_version
after_find mq tq req (error e) w t now fresh kt kn kf c f =
    refused_early (text "file_not_found:2022:422") refl kt
after_find mq tq req (value []) w t now fresh kt kn kf c f =
    refused_early (text "file_not_found:2023:404") refl kt
after_find mq tq req (value (prev ∷ rest)) w t now fresh kt kn kf c f =
    let run = next_version mq tq req (value (prev ∷ rest)) w in
    found_row prev rest (f (prev ∷ rest) refl) c (
      subst (λ t. Updated req prev t now fresh run) kt
        (subst (λ n. Updated req prev w.tables n fresh run) kn
          (subst (λ l. Updated req prev w.tables w.now l run) kf
            (next_version-Handled mq tq req prev rest w))))

-- `UpdateFileMetadata` never panics and returns no Go error. It refuses with a code and leaves the
-- tables as they were; or the number of chunks is the one that the size asks for, a row of the file
-- is found, and against the first such row: either its digest is another than the request's, and
-- one row has been added, with the name and the type of the found row, the rest from the request, the
-- file as its previous version, uploading and not current, whose id is the generator's next text, and
-- one stream token of the user with the two texts after that, and the answer has the token's text and
-- both ids; or the answer is a coded refusal, and the tables are as they were.
pub update_file_metadata-Outdated :
    (mq tq : QueryMapper) (req : FileUpdateMetadataRequest) (w : World)
    → Outdated req w.tables w.now w.fresh (update_file_metadata mq tq req w)
unfolding update_file_metadata
update_file_metadata-Outdated mq tq req w =
    let found = find_by mq (equals (text "id") req.file_id ∷ []) in
    let k = find_by-cases mq req.file_id w in
    elim (Bool-cases (eqb_ℤ (calculate_chunks req.file_size) req.chunks)) [
      | inr e ↦ rw (e) (refused_early (text "invalid_file_data:2006:422") refl refl)
      | inl e ↦ elim k.0 [
        | inl (x, h) ↦
            rw (e, bind-attempt-err found (next_version mq tq req) w h)
              (after_find mq tq req (error x) (found w).1 w.tables w.now w.fresh k.1 k.2 k.3
                ((eqb_ℤ_iff (calculate_chunks req.file_size) req.chunks).0 e)
                (λ rows q. ground (arith, q)))
        | inr h ↦
            rw (e, bind-attempt-ok found (next_version mq tq req) w h)
              (after_find mq tq req (value (rows_with req.file_id w.tables)) (found w).1 w.tables
                w.now w.fresh k.1 k.2 k.3
                ((eqb_ℤ_iff (calculate_chunks req.file_size) req.chunks).0 e)
                (λ rows q. ground (arith, q)))
      ]
    ]
