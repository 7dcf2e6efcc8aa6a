-- ===== src/Files/ChunkUpload/Storage.antt =====
-- What an upload of a chunk leaves in the tables.
use arbokcore.Prelude.{
  ℕ, Text, text, ◌==◌, eq_iff, none, some, Option-cases, [], ◌∷◌, ◌++◌, Bool, true, false, lookup,
  ◌≡◌, ◌⊎◌, inl, inr, refl, subst, arith,
}
use arbokcore.Prelude.Int.{ℤ}
use arbokcore.Prelude.Decimal.{atoi}
use arbokcore.BlobStore.{BlobStorage}
use arbokcore.Api.{Response, build_response}
use arbokcore.Files.{UserFile}
use arbokcore.Files.Repository.{create_chunk, err_stmt_not_found}
use arbokcore.Files.ChunkUpload.{
  FileChunkRequest, ChunkUploadResponse, validate_hash, user_file, saved, store_chunk, with_ids,
  checked, create_file_chunk,
}
use arbokcore.Tokens.Repository.{QueryMapper, get_query}
use arbokcore.World.{
  World, Tables, Outcome, ok, err, value, first, attempt, ◌>>=◌, bind-ok, bind-attempt-ok,
  bind-attempt-err, Outcome-cases,
}

-- The row of a chunk, and the answer that tells of it.
abbrev pub chunk_row : FileChunkRequest → ℤ → ℤ → Text → ℕ → UserFile
chunk_row req chunk_id next_chunk_id path now = record {
  user_id = req.user_id;
  file_id = req.file_id;
  chunk_id = chunk_id;
  chunk_blob_url = path;
  chunk_hash = req.chunk_digest;
  next_chunk_id = some next_chunk_id;
  created_at = now;
  updated_at = now;
}

abbrev pub chunk_answer : FileChunkRequest → ℤ → ℤ → Text → ℕ → ChunkUploadResponse
chunk_answer req chunk_id next_chunk_id path now = record {
  chunk_id = chunk_id;
  next_chunk_id = next_chunk_id;
  chunk_blob_url = path;
  chunk_hash = req.chunk_digest;
  created_at = now;
  updated_at = now;
}

-- The ways in which the upload of a chunk can end.
pub data Received (digest : Text → Text) (storage : BlobStorage) (req : FileChunkRequest)
    (t : Tables) (now : ℕ) (run : Outcome (Response ChunkUploadResponse) × World) : Type 0 where
  stored :
      (chunk_id next_chunk_id : ℤ) (path : Text)
      → req.chunk_digest ≡ digest req.content
      → atoi req.chunk_id ≡ (chunk_id, true)
      → atoi req.next_chunk_id ≡ (next_chunk_id, true)
      → (before : World)
      → (storage.update_chunk req.file_id chunk_id req.content before).0 ≡ ok path
      → run.0 ≡ ok (build_response none (some (chunk_answer req chunk_id next_chunk_id path now)))
      → run.1.tables ≡ record t {
        user_files = t.user_files ++ chunk_row req chunk_id next_chunk_id path now ∷ [];
      }
      → Received digest storage req t now run
  declined :
      (e : Text)
      → run.0 ≡ ok (build_response (some e) none)
      → run.1.tables ≡ t
      → Received digest storage req t now run

validate_hash-cases :
    (digest : Text → Text) (req : FileChunkRequest) (w : World)
    → (valid : Bool) × ((validate_hash digest req w).0 ≡ ok valid)
      × (valid ≡ true → req.chunk_digest ≡ digest req.content)
      × ((validate_hash digest req w).1.tables ≡ w.tables)
      × ((validate_hash digest req w).1.now ≡ w.now)
unfolding validate_hash
validate_hash-cases digest req w = elim (Option-cases (first w.answers)) [
  | inl e ↦ (
    req.chunk_digest == digest req.content,
    ground (arith, e),
    (λ q. (eq_iff req.chunk_digest (digest req.content)).0 q),
    ground arith,
    ground arith,
  )
  | inr (x, e) ↦ (false, ground (arith, e), (λ q. cc), ground arith, ground arith)
]

create_chunk-cases :
    (querier : QueryMapper) (chunk : UserFile) (w : World)
    → (((create_chunk querier chunk w).0 ≡ ok tt)
        × ((create_chunk querier chunk w).1.tables
            ≡ record (w.tables) { user_files = w.tables.user_files ++ chunk ∷ [] }))
      ⊎ ((e : Text) × ((create_chunk querier chunk w).0 ≡ err e)
          × ((create_chunk querier chunk w).1.tables ≡ w.tables))
unfolding create_chunk get_query
create_chunk-cases querier chunk w = elim (Option-cases (lookup (text "CreateFileChunk") querier)) [
  | inl e ↦ inr (err_stmt_not_found, ground (arith, e), ground (arith, e))
  | inr (stmt, e) ↦ elim (Option-cases (first w.answers)) [
    | inl a ↦ inl (ground (arith, e, a), ground (arith, e, a))
    | inr (x, a) ↦ inr (x, ground (arith, e, a), ground (arith, e, a))
  ]
]

module _ (digest : Text → Text) (storage : BlobStorage) (querier : QueryMapper)
    (req : FileChunkRequest) where
  store_chunk-Received :
      (c n : ℤ) (path : Text) (before w : World)
      → req.chunk_digest ≡ digest req.content
      → atoi req.chunk_id ≡ (c, true)
      → atoi req.next_chunk_id ≡ (n, true)
      → (storage.update_chunk req.file_id c req.content before).0 ≡ ok path
      → Received digest storage req w.tables w.now (store_chunk querier req c n (value path) w)
  unfolding store_chunk saved
  store_chunk-Received c n path before w d p q u =
      elim (create_chunk-cases querier (user_file req c n path w.now) w) [
        | inl (h, t) ↦ stored c n path d p q before u (ground (arith, h)) (ground (arith, h, t))
        | inr (e, h, t) ↦
            declined (text "save_chunk_failed:5005:500") (ground (arith, h)) (ground (arith, h, t))
      ]

  update_chunk-Received :
      (c n : ℤ) (w : World)
      → req.chunk_digest ≡ digest req.content
      → atoi req.chunk_id ≡ (c, true)
      → atoi req.next_chunk_id ≡ (n, true)
      → Received digest storage req w.tables w.now (
          (attempt (storage.update_chunk req.file_id c req.content) >>= store_chunk querier req c n)
            w)
  unfolding store_chunk
  update_chunk-Received c n w d p q =
      let m = storage.update_chunk req.file_id c req.content in
      elim (Outcome-cases (m w).0) [
        | inl (path, e) ↦ rw (bind-attempt-ok m (store_chunk querier req c n) w e) (
            subst
              (λ t.
                Received digest storage req t w.now
                  (store_chunk querier req c n (value path) (m w).1))
              (storage.keeps_tables req.file_id c req.content w)
              (subst
                (λ now.
                  Received digest storage req (m w).1.tables now
                    (store_chunk querier req c n (value path) (m w).1))
                (storage.keeps_now req.file_id c req.content w)
                (store_chunk-Received c n path w (m w).1 d p q e)))
        | inr (inl (x, e)) ↦ rw (bind-attempt-err m (store_chunk querier req c n) w e) (
            declined (text "internal_server_error:5003:500") refl
              (storage.keeps_tables req.file_id c req.content w))
        | inr (inr e) ↦ absurd (storage.no_panic req.file_id c req.content w e)
      ]

  with_ids-Received :
      (c n : ℤ × Bool) (w : World)
      → req.chunk_digest ≡ digest req.content
      → atoi req.chunk_id ≡ c
      → atoi req.next_chunk_id ≡ n
      → Received digest storage req w.tables w.now (with_ids storage querier req c n w)
  unfolding with_ids
  with_ids-Received (c, false) n w d p q = declined (text "invalid_file_chunk:5002:422") refl refl
  with_ids-Received (c, true) (n, false) w d p q =
      declined (text "invalid_file_chunk:5004:422") refl refl
  with_ids-Received (c, true) (n, true) w d p q = update_chunk-Received c n w d p q

  checked-Received :
      (valid : Bool) (w : World)
      → (valid ≡ true → req.chunk_digest ≡ digest req.content)
      → Received digest storage req w.tables w.now (checked storage querier req valid w)
  unfolding checked
  checked-Received false w d = declined (text "corrupted_file:5001:422") refl refl
  checked-Received true w d =
      with_ids-Received (atoi req.chunk_id) (atoi req.next_chunk_id) w (d refl) refl refl

  -- The upload of a chunk never panics and returns no Go error. Either the chunk's bytes have the
  -- digest that the request names, both ids are numbers, the blob store has returned a path, one row
  -- of the request's user and file with this path, this digest and these ids has been added to the
  -- chunks, and the answer shows them; or the answer is a coded refusal, and the tables
  -- are as they were.
  pub create_file_chunk-Received :
      (w : World)
      → Received digest storage req w.tables w.now (create_file_chunk digest storage querier req w)
  unfolding create_file_chunk
  create_file_chunk-Received w =
      let m = validate_hash digest req in
      let (valid, h, sound, k, n) = validate_hash-cases digest req w in
      let run = checked storage querier req valid (m w).1 in
      rw (bind-ok m (checked storage querier req) w h) (
        subst (λ t. Received digest storage req t w.now run) k
          (subst (λ now. Received digest storage req (m w).1.tables now run) n
            (checked-Received valid (m w).1 sound)))
