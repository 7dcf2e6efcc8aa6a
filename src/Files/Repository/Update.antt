-- ===== src/Files/Repository/Update.antt =====
-- What `Update` does to the versions of a file, whatever the driver answers.
use arbokcore.Prelude.{
  ℕ, Text, text, Option, none, some, List, [], ◌∷◌, map, true, ◌≡◌, ◌≢◌, ◌↔◌, ◌⊎◌, inl, inr, refl,
  ap, ap₂, arith, is_some, lookup, Bool, false, ◌==◌, ◌&&◌, if◌then◌else◌, eq_iff,
}
use arbokcore.Files.{FileMetadata}
use arbokcore.World.{World, ok, panic, first, Outcome-cases}
use arbokcore.Tokens.Repository.{QueryMapper}
use arbokcore.Files.Repository.Sql.{mark, retire, sql_is}
use arbokcore.Files.Repository.{update}

-- Two version ids, either of which may be missing.
abbrev pub same_version : Option Text → Option Text → Bool
same_version none none = true
same_version none (some b) = false
same_version (some a) none = false
same_version (some a) (some b) = a == b

-- What becomes of one row: the previous version is retired, with an end; else the new version, if it
-- names the previous one, is the current one, without an end; both have the status, and no other
-- column and no other row changes.
abbrev pub versioned : Option Text → Text → Text → ℕ → FileMetadata → FileMetadata
versioned prev new_id status now m =
    if same_version prev (some m.id)
    then record {
      id = m.id;
      user_id = m.user_id;
      filename = m.filename;
      file_size = m.file_size;
      file_type = m.file_type;
      file_hash = m.file_hash;
      n_chunks = m.n_chunks;
      current_flag = false;
      upload_status = status;
      prev_id = m.prev_id;
      end_date = some now;
      created_at = m.created_at;
      updated_at = m.updated_at;
    }
    else (if m.id == new_id && same_version m.prev_id prev
        then record {
          id = m.id;
          user_id = m.user_id;
          filename = m.filename;
          file_size = m.file_size;
          file_type = m.file_type;
          file_hash = m.file_hash;
          n_chunks = m.n_chunks;
          current_flag = true;
          upload_status = status;
          prev_id = m.prev_id;
          end_date = none;
          created_at = m.created_at;
          updated_at = m.updated_at;
        }
        else m)

sql_is-same_version : (a b : Option Text) → sql_is a b ≡ same_version a b
sql_is-same_version none none = refl
sql_is-same_version none (some b) = refl
sql_is-same_version (some a) none = refl
sql_is-same_version (some a) (some b) = refl

pub mark-versioned :
    (id status : Text) (now : ℕ) (m : FileMetadata)
    → mark none id status m ≡ versioned none id status now m
unfolding mark
mark-versioned id status now m = rw (sql_is-same_version m.prev_id none) refl

retire-versioned :
    (prev id status : Text) (now : ℕ) (m : FileMetadata)
    → retire prev now status (mark (some prev) id status m) ≡ versioned (some prev) id status now m
unfolding mark retire
retire-versioned prev id status now m =
    ground (arith, sql_is-same_version m.prev_id (some prev), eq_iff prev m.id, eq_iff m.id prev)

map-same :
    (f g : FileMetadata → FileMetadata) (ms : List FileMetadata)
    → ((m : FileMetadata) → f m ≡ g m)
    → map f ms ≡ map g ms
map-same f g [] h = refl
map-same f g (m ∷ ms) h = ap₂ ◌∷◌ (h m) (map-same f g ms h)

map-map :
    (f g : FileMetadata → FileMetadata) (ms : List FileMetadata)
    → map f (map g ms) ≡ map (λ m. f (g m)) ms
map-map f g [] = refl
map-map f g (m ∷ ms) = ap (λ t. f (g m) ∷ t) (map-map f g ms)

-- A call of `Update` that returns no error has made the row of the new version the current one, with
-- the given status, if it names the given previous version, and retired the row of the previous
-- version with the same status at the time of the call; no other row of the metadata, no chunk and
-- no token has changed.
pub update-versioned :
    (querier : QueryMapper) (prev : Option Text) (id status : Text) (w : World)
    → (update querier prev id status w).0 ≡ ok tt
    → (update querier prev id status w).1.tables ≡ record (w.tables) {
      file_metadatas = map (versioned prev id status w.now) w.tables.file_metadatas;
    }
unfolding update
update-versioned querier none id status w h = ground (
  arith,
  map-same (mark none id status) (versioned none id status w.now) w.tables.file_metadatas
      (mark-versioned id status w.now),
)
update-versioned querier (some prev) id status w h = ground (
  arith,
  map-map (retire prev w.now status) (mark (some prev) id status) w.tables.file_metadatas,
  map-same (λ m. retire prev w.now status (mark (some prev) id status m))
      (versioned (some prev) id status w.now) w.tables.file_metadatas
      (retire-versioned prev id status w.now),
)

-- A call of `Update` that returns an error or panics has left every table as it was.
pub update_atomic :
    (querier : QueryMapper) (prev : Option Text) (id status : Text) (w : World)
    → (update querier prev id status w).0 ≢ ok tt
    → (update querier prev id status w).1.tables ≡ w.tables
unfolding update
update_atomic querier none id status w h = ground arith
update_atomic querier (some prev) id status w h = ground arith

-- A call of `Update` is a transaction. Either it returns no error, and it has made the row of the new
-- version the current one, with the given status, if it names the given previous version, and
-- retired the row of the previous version with the same status at the time of the call, while no
-- other row of the metadata, no chunk and no token has changed; or it returns an error or panics,
-- and has left every table as it was.
pub update_transaction :
    (querier : QueryMapper) (prev : Option Text) (id status : Text) (w : World)
    → (((update querier prev id status w).0 ≡ ok tt)
        × ((update querier prev id status w).1.tables ≡ record (w.tables) {
          file_metadatas = map (versioned prev id status w.now) w.tables.file_metadatas;
        }))
      ⊎ (((update querier prev id status w).0 ≢ ok tt)
          × ((update querier prev id status w).1.tables ≡ w.tables))
update_transaction querier prev id status w =
    elim (Outcome-cases (update querier prev id status w).0) [
      | inl (u, h) ↦ inl (h, update-versioned querier prev id status w h)
      | inr (inl (e, h)) ↦
          let failed : (update querier prev id status w).0 ≢ ok tt = λ k. ground (arith, h, k) in
          inr (failed, update_atomic querier prev id status w failed)
      | inr (inr h) ↦
          let failed : (update querier prev id status w).0 ≢ ok tt = λ k. ground (arith, h, k) in
          inr (failed, update_atomic querier prev id status w failed)
    ]

-- `Update` panics exactly when the statement is known and the transaction cannot be begun: the
-- error of `BeginTxx` is not looked at.
pub update_panics_iff :
    (querier : QueryMapper) (prev : Option Text) (id status : Text) (w : World)
    → ((update querier prev id status w).0 ≡ panic) ↔ (
        (is_some (lookup (text "UpdateCurrentFlag") querier) ≡ true)
        × (is_some (first w.answers) ≡ true))
unfolding update
update_panics_iff querier none id status w = ground arith
update_panics_iff querier (some prev) id status w = ground arith
