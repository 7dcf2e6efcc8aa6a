-- ===== src/Middlewares.antt =====
-- web/middlewares/authnz.go: what a request's headers and query parameters must hold before its
-- handler runs. A header or a parameter that is missing reads as the empty text.
pub mod Guards
use arbokcore.Prelude.{
  ℕ, ◌==◌, Text, text, Option, none, some, List, [], ◌∷◌, ◌++◌, Bool, true, false, ◌||◌, ◌&&◌, leb,
  eqb, if◌then◌else◌, strip_prefix, split, trim_space,
}
use arbokcore.Tokens.{Token}
use arbokcore.Tokens.Repository.{
  QueryMapper, FindByClause, find_by_access_token, find_by_stream_token,
}
use arbokcore.World.{
  World, Go, Outcome, ok, err, panic, Result, value, error, pure, crash, attempt, ◌>>=◌,
}

pub record Request : Type 0 where
  pub access_header : Text
  pub stream_header : Text
  pub access_query : Text
  pub file_id_query : Text
  pub file_id_param : Text
  pub sig_token : Text

-- A status with no content, or the handler runs with the token in its context.
pub data Reply : Type 0 where
  no_content : ℕ → Reply
  next : Token → Reply

abbrev pub bearer_key : Text
bearer_key = text "Bearer "

-- The white space of ASCII.
unfoldable pub get_bearer_token : Text → Option Text
get_bearer_token token = elim (strip_prefix bearer_key token) [
  | none ↦ none
  | some rest ↦ some (trim_space rest)
]

-- `a`, or `b` where it is empty.
abbrev pub or_else_text : Text → Text → Text
or_else_text [] b = b
or_else_text (c ∷ s) b = c ∷ s

abbrev pub access_clause : Text → FindByClause
access_clause access_token = record {
  access_token = access_token;
  refresh_token = [];
  stream_token = [];
  resource_id = [];
  resource_type = text "user";
  user_id = none;
  test_mode = true;
}

unfoldable pub admitted : Result Token → Go Reply
admitted (error e) = pure (no_content 401)
admitted (value token) = pure (next token)

unfoldable pub with_bearer : Text → QueryMapper → Option Text → Go Reply
unfolding admitted
with_bearer unbound querier none = pure (no_content 400)
with_bearer unbound querier (some access_token) = do
  r ← attempt (find_by_access_token unbound querier (access_clause access_token))
  admitted r

unfoldable pub validate_header : Text → QueryMapper → Text → Go Reply
unfolding with_bearer
validate_header unbound querier [] = pure (no_content 401)
validate_header unbound querier (c ∷ s) = with_bearer unbound querier (get_bearer_token (c ∷ s))

unfoldable pub validate_access_token : Text → QueryMapper → Request → Go Reply
unfolding validate_header
validate_access_token unbound querier req =
    validate_header unbound querier (or_else_text req.access_header req.access_query)

-- `Header.Add` of a key: `Get` reads the first value.
abbrev pub add_header : Text → Text → Text
add_header [] v = v
add_header (c ∷ s) v = c ∷ s

-- `splits[0]` and `splits[1]`, of which the second may be out of range.
unfoldable pub add_splits : Request → List Text → Go Request
add_splits req [] = crash
add_splits req (stream ∷ []) = crash
add_splits req (stream ∷ access ∷ rest) = pure (
    if req.sig_token == [] then req else record req {
      access_header = add_header req.access_header (bearer_key ++ access);
      stream_header = add_header req.stream_header (bearer_key ++ stream);
    })

unfoldable pub add_token_from_url_to_header : Request → Go Request
unfolding add_splits
add_token_from_url_to_header req = add_splits req (split b':' req.sig_token)

abbrev pub stream_clause : Text → Text → Text → FindByClause
stream_clause access_token stream_token file_id = record {
  access_token = access_token;
  refresh_token = [];
  stream_token = stream_token;
  resource_id = file_id;
  resource_type = text "stream";
  user_id = some (text "U11223455");
  test_mode = true;
}

unfoldable pub device_of : Text → Text
device_of access_token = if access_token == text "trial_access_token_1" then text "2" else text "1"

unfoldable pub with_device : Text → Result Token → Go Reply
with_device device_id (error e) = pure (no_content 401)
with_device device_id (value token) = pure (next (record token { device_id = device_id }))

unfoldable pub with_bearers : QueryMapper → Text → Option Text → Option Text → Go Reply
with_bearers querier file_id none stream = pure (no_content 400)
with_bearers querier file_id (some access_token) none = pure (no_content 400)
with_bearers querier file_id (some access_token) (some stream_token) = do
  r ← attempt (find_by_stream_token querier (stream_clause access_token stream_token file_id))
  with_device (device_of access_token) r

unfoldable pub validate_stream_token : QueryMapper → Request → Go Reply
validate_stream_token querier req =
    if (req.access_header == []) || (req.stream_header == [])
    then pure (no_content 401)
    else with_bearers querier (or_else_text req.file_id_query req.file_id_param)
        (get_bearer_token req.access_header) (get_bearer_token req.stream_header)
