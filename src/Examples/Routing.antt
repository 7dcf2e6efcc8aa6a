-- ===== src/Examples/Routing.antt =====
-- Requests, downloads and announcements, on the sample tables.
use arbokcore.Prelude.{
  ◌==◌, Text, text, Option, none, some, [], ◌∷◌, lookup, ◌&&◌, if◌then◌else◌, ◌≡◌, ◌⊎◌, refl, arith,
}
use arbokcore.Prelude.Int.{pos}
use arbokcore.Brokers.{Broker, started}
use arbokcore.Files.Downloads.Cache.{Coherent}
use arbokcore.Files.Requests.{Codec, MetadataRequest}
use arbokcore.Notifiers.{MetadataUpdateStatusEvent}
use arbokcore.Routes.{download_file, download_file_v2, post_file_metadata}
use arbokcore.Routes.Downloading.{download_file_v2-download_file}
use arbokcore.Routes.Owners.{Posted, post_file_metadata-Posted}
use arbokcore.Routes.Server.{put_eof}
use arbokcore.Routes.Server.Eof.{Authorized, put_eof-Authorized}
use arbokcore.World.{World, Result, value, error}
use arbokcore.Examples.Data.{calm, answering, querier, stream_row}
use arbokcore.Examples.Messages.{codec}
use arbokcore.Examples.Serving.{request, served_world}

put_eof-Authorized_example :
    ((put_eof querier querier codec request served_world).1.queues ≡ served_world.queues)
    ⊎ Authorized request served_world
put_eof-Authorized_example =
    put_eof-Authorized querier querier codec request served_world (omega arith)

abbrev upload : MetadataRequest
upload = record {
  user_id = text "eve";
  file_name = text "plan";
  file_type = text "txt";
  file_size = pos 5;
  digest = text "h9";
  upload_status = [];
  chunks = pos 1;
  access_token = [];
}

post_file_metadata-Posted_example :
    Posted
      (text "v1")
      upload
      calm.tables
      10
      (post_file_metadata querier querier (some upload) (some stream_row) calm)
post_file_metadata-Posted_example = post_file_metadata-Posted querier querier upload stream_row calm

-- Redis has the first chunk and refuses a call.
abbrev warm : World
warm = record calm {
  cache = (text "a", text "first") ∷ [];
  cache_answers = none ∷ some (text "down") ∷ [];
}

warm-Coherent : Coherent warm
unfolding lookup ◌==◌
warm-Coherent path content h = ground (arith, h)

download_file_v2-download_file_example :
    (download_file_v2 (λ rows. rows) querier (text "v1") (some stream_row) warm).0
    ≡ (download_file (λ rows. rows) querier (text "v1") (some stream_row) warm).0
download_file_v2-download_file_example =
    download_file_v2-download_file (λ rows. rows) querier (text "v1") (some stream_row) warm refl
      warm-Coherent

-- The chunk is in the cache with other contents.
abbrev stale : World
stale = record calm { cache = (text "/data/v2/1/", text "old") ∷ [] }

abbrev failing : World
failing = answering (none ∷ none ∷ none ∷ some (text "disk full") ∷ [])

-- A codec for one event of one file.
abbrev encode_one : Text → Text → Option Text → Text → Result Text
encode_one file_id user_id (some prev) device_id = error (text "gob")
encode_one file_id user_id none device_id =
    if file_id == text "v2" && user_id == text "ann" && device_id == text "1"
    then value (text "m")
    else error (text "gob")

abbrev one_event : MetadataUpdateStatusEvent
one_event = record {
  file_id = text "v2";
  user_id = text "ann";
  prev_file_id = none;
  device_id = text "1";
}

abbrev one_codec : Codec MetadataUpdateStatusEvent
one_codec = record {
  encode = λ event. encode_one event.file_id event.user_id event.prev_file_id event.device_id;
  decode = λ m. value one_event;
}

abbrev two_devices : Broker
two_devices = record started { topics = (1, text "ann_2") ∷ (0, text "ann_1") ∷ []; made = 2 }
