-- ===== src/Examples/Uploading.antt =====
-- The writes to the tables, on the sample tables.
use arbokcore.Prelude.{text, some, [], map, ◌≡◌, ◌⊎◌, ◌≢◌, ◌≢◌}
use arbokcore.Prelude.Int.{pos}
use arbokcore.Files.{status_uploading, status_completed}
use arbokcore.Files.Repository.{update}
use arbokcore.Files.Repository.Update.{versioned, update_transaction}
use arbokcore.Files.Requests.{MetadataRequest, FileUpdateMetadataRequest}
use arbokcore.Files.Service.{prepare_file_for_upload, update_file_metadata}
use arbokcore.Files.Service.Uploads.{Prepared, prepare_file_for_upload-Handled}
use arbokcore.Files.Service.Versions.{Outdated, update_file_metadata-Outdated}
use arbokcore.World.{ok}
use arbokcore.Examples.Data.{querier, calm}

-- The statement on the previous version fails.
update_transaction_example :
    (((update querier (some (text "v1")) (text "v2") status_completed calm).0 ≡ ok tt)
      × ((update querier (some (text "v1")) (text "v2") status_completed calm).1.tables
          ≡ record (calm.tables) {
            file_metadatas =
                map
                  (versioned (some (text "v1")) (text "v2") status_completed 10)
                  calm.tables.file_metadatas;
          }))
    ⊎ (((update querier (some (text "v1")) (text "v2") status_completed calm).0 ≢ ok tt)
        × ((update querier (some (text "v1")) (text "v2") status_completed calm).1.tables
            ≡ calm.tables))
update_transaction_example =
    update_transaction querier (some (text "v1")) (text "v2") status_completed calm

abbrev upload : MetadataRequest
upload = record {
  user_id = text "ann";
  file_name = text "draft";
  file_type = text "txt";
  file_size = pos 5000000;
  digest = text "h3";
  upload_status = status_uploading;
  chunks = pos 2;
  access_token = [];
}

prepare_file_for_upload-Handled_example :
    Prepared upload calm.tables 10 calm.fresh (prepare_file_for_upload querier querier upload calm)
prepare_file_for_upload-Handled_example =
    prepare_file_for_upload-Handled querier querier upload calm

abbrev change : FileUpdateMetadataRequest
change = record {
  file_name = text "notes";
  file_id = text "v1";
  digest = text "h3";
  chunks = pos 2;
  file_size = pos 5000000;
  file_type = text "txt";
  upload_status = status_uploading;
  user_id = text "ann";
}

update_file_metadata-Outdated_example :
    Outdated change calm.tables 10 calm.fresh (update_file_metadata querier querier change calm)
update_file_metadata-Outdated_example = update_file_metadata-Outdated querier querier change calm
