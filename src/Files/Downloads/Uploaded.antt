-- ===== src/Files/Downloads/Uploaded.antt =====
-- The download of a chunk that has just been stored on the local disk.
use arbokcore.Prelude.{Text, Option, none, some, [], lookup, ◌≡◌}
use arbokcore.World.{World, Outcome, ok}

-- What a download finds: the cached contents, if there are any.
abbrev served : Option Text → Text → Text
served (some old) content = old
served none content = content

-- After a chunk is stored.
record Stored (path content : Text) (w : World) (run : Outcome Text × World) : Type 0 where
  returns : run.0 ≡ ok path
  answers : run.1.answers ≡ []
  cache : run.1.cache ≡ w.cache
  cache_answers : run.1.cache_answers ≡ w.cache_answers
  there : lookup path run.1.disk ≡ some content
