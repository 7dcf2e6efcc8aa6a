-- ===== src/Examples/Serving.antt =====
-- Uploads of chunks, the guards and the broker, on small inputs.
use arbokcore.Prelude.{
  trim_space, ◌==◌, Text, text, some, [], ◌∷◌, lookup, strip_prefix, refl, arith,
}
use arbokcore.Prelude.Int.{pos}
use arbokcore.Files.ChunkUpload.{FileChunkRequest, create_file_chunk}
use arbokcore.Files.ChunkUpload.Storage.{Received, create_file_chunk-Received}
use arbokcore.Middlewares.{
  Request, get_bearer_token, device_of, with_device, with_bearers, validate_stream_token,
}
use arbokcore.Middlewares.Guards.{Admitted, validate_stream_token-Admitted}
use arbokcore.Tokens.{Token, has_access_expired}
use arbokcore.Tokens.Repository.{find_by_stream_token, stream_token_row}
use arbokcore.World.{World}
use arbokcore.BlobStore.Storage.{local_fs}
use arbokcore.Examples.Data.{tables, stream_row, querier, calm, local_system}

abbrev pub chunk_request : FileChunkRequest
chunk_request = record {
  chunk_id = text "1";
  next_chunk_id = text "-1";
  chunk_digest = text "dd";
  chunk_size = pos 2;
  file_digest = text "h3";
  content = text "d";
  file_id = text "v2";
  user_id = text "ann";
}

-- A digest that writes every byte twice.
abbrev pub doubled : Text → Text
doubled [] = []
doubled (c ∷ s) = c ∷ c ∷ doubled s

create_file_chunk-Received_example :
    Received doubled
      (local_fs local_system (text "/data"))
      chunk_request
      calm.tables
      10
      (create_file_chunk doubled (local_fs local_system (text "/data")) querier chunk_request calm)
create_file_chunk-Received_example =
    create_file_chunk-Received doubled (local_fs local_system (text "/data")) querier chunk_request
      calm

abbrev admin_row : Token
admin_row = record stream_row { user_id = some (text "U11223455") }

abbrev pub served_world : World
served_world = record calm { tables = record tables { tokens = admin_row ∷ [] } }

abbrev pub request : Request
request = record {
  access_header = text "Bearer anything";
  stream_header = text "Bearer s1";
  access_query = [];
  file_id_query = [];
  file_id_param = text "v1";
  sig_token = text "s1";
}

validate_stream_token-Admitted_example :
    Admitted request served_world (record admin_row { device_id = text "1" })
unfolding validate_stream_token ◌==◌ with_bearers get_bearer_token strip_prefix find_by_stream_token
    lookup has_access_expired stream_token_row trim_space with_device device_of
validate_stream_token-Admitted_example =
    validate_stream_token-Admitted querier request served_world (omega arith) refl
