-- ===== src/Files/ChunkUpload/Lost.antt =====
-- A chunk whose copy to the local disk fails.
use arbokcore.Prelude.{Text, text, eq_iff, some, none, [], ◌∷◌, ◌++◌, true, lookup, ◌≡◌, arith}
use arbokcore.Prelude.Int.{ℤ}
use arbokcore.Prelude.Decimal.{atoi}
use arbokcore.Api.{build_response}
use arbokcore.BlobStore.{System, ensure_dir, update_chunk}
use arbokcore.BlobStore.Storage.{local_fs}
use arbokcore.Files.Repository.{create_chunk}
use arbokcore.Files.ChunkUpload.{
  FileChunkRequest, validate_hash, user_file, uploaded, saved, store_chunk, with_ids, checked,
  create_file_chunk,
}
use arbokcore.Tokens.Repository.{QueryMapper, get_query}
use arbokcore.World.{World, ok}

-- A failed copy is acknowledged: where the digest and the ids of the request are right, the statement
-- is known, the directory and the file can be made, the copy to the local disk fails, and the driver
-- adds the row, the answer is a success, and the chunk's row has an empty url.
pub create_file_chunk-copy_failed :
    (digest : Text → Text) (os : System) (dir_path : Text) (querier : QueryMapper)
    (req : FileChunkRequest) (c n : ℤ) (e stmt : Text) (w : World)
    → req.chunk_digest ≡ digest req.content
    → atoi req.chunk_id ≡ (c, true)
    → atoi req.next_chunk_id ≡ (n, true)
    → lookup (text "CreateFileChunk") querier ≡ some stmt
    → w.answers ≡ none ∷ none ∷ none ∷ some e ∷ []
    → ((create_file_chunk digest (local_fs os dir_path) querier req w).0
        ≡ ok (build_response none (some (uploaded req c n [] w.now))))
      × ((create_file_chunk digest (local_fs os dir_path) querier req w).1.tables
          ≡ record (w.tables) {
            user_files = w.tables.user_files ++ user_file req c n [] w.now ∷ [];
          })
unfolding create_file_chunk validate_hash checked with_ids store_chunk saved create_chunk get_query
    update_chunk ensure_dir
create_file_chunk-copy_failed digest os dir_path querier req c n e stmt w d p q k a =
    let same = (eq_iff req.chunk_digest (digest req.content)).1 d in
    (ground (arith, a, same, p, q, k), ground (arith, a, same, p, q, k))
