-- ===== src/Files/Downloads.antt =====
-- core/files/download.service.go, and the same loop without a cache in `DownloadFile` of
-- web/routes/metadatahandler.go. A buffer has no limit of its own.
pub mod Cache
pub mod Uploaded
use arbokcore.Prelude.{ℕ, Text, text, Option, none, some, List, [], ◌∷◌, ◌++◌, lookup, insert}
use arbokcore.Prelude.Int.{ℤ, pos, negsuc}
use arbokcore.World.{World, Done, Go, ok, pure, fail, crash, call, first, others, ◌>>=◌, ◌>>◌}

abbrev pub err_no_file : Text
err_no_file = text "no such file or directory"

abbrev pub content_of : Option Text → Go Text
content_of none = fail err_no_file
content_of (some content) = do call; pure content

-- `os.Open` and `io.Copy`.
unfoldable pub read_file : Text → Go Text
read_file path = do call; λ w. content_of (lookup path w.disk) w

-- The next answer of Redis to a call on a key.
abbrev pub ask_cache : Go (Option Text)
ask_cache w = (ok (first w.cache_answers), record w { cache_answers = others w.cache_answers })

abbrev pub hit : Option Text → Option Text → Option Text
hit (some e) found = none
hit none found = found

-- GET, `none` for an error: a key that is missing or has expired, or a failure.
unfoldable pub get_cached : Text → Go (Option Text)
get_cached path = do e ← ask_cache; λ w. (ok (hit e (lookup path w.cache)), w)

abbrev pub stored_in_cache : Text → Text → Option Text → Go Done
stored_in_cache path content (some e) = pure tt
stored_in_cache path content none = λ w. (ok tt, record w { cache = insert path content w.cache })

-- SETEX, whose error is logged.
unfoldable pub set_cached : Text → Text → Go Done
set_cached path content = do e ← ask_cache; stored_in_cache path content e

unfoldable pub fetch : Text → Option Text → Go Text
fetch path (some content) = pure content
fetch path none = do content ← read_file path; set_cached path content; pure content

-- A read through the cache.
abbrev pub fetch_cached : Text → Go Text
fetch_cached path = do found ← get_cached path; fetch path found

unfoldable pub download_all : Text → List Text → Go Text
download_all buffer [] = pure buffer
download_all buffer (path ∷ paths) = do
  content ← fetch_cached path
  download_all (buffer ++ content) paths

-- `make` panics at a negative capacity.
unfoldable pub download : ℤ → List Text → Go Text
download (negsuc n) file_paths = crash
download (pos n) file_paths = download_all [] file_paths

-- The loop of `DownloadFile`.
unfoldable pub read_all : Text → List Text → Go Text
read_all buffer [] = pure buffer
read_all buffer (path ∷ paths) = do content ← read_file path; read_all (buffer ++ content) paths

unfoldable pub read_files : ℤ → List Text → Go Text
read_files (negsuc n) file_paths = crash
read_files (pos n) file_paths = read_all [] file_paths
