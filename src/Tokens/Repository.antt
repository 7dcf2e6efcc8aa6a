-- ===== src/Tokens/Repository.antt =====
-- `NewToken` of core/tokens/token.go, and core/tokens/service.go over the tokens table.
pub mod Access
pub mod Creation
use arbokcore.Prelude.{
  ℕ, ◌+◌, Text, text, ◌==◌, Option, none, some, List, [], ◌∷◌, ◌++◌, Dict, lookup, Bool, true,
  false, ◌&&◌, if◌then◌else◌,
}
use arbokcore.Tokens.{
  Token, TokenOpts, zero_token, has_access_expired, is_expired, validate_resource_type, to_lower,
  apply_opts, with_user_id, with_default_expiry, long_expiry_duration, admin_token, another_token,
  resource_type_user, resource_type_stream, err_token_validation_failed, err_token_not_found,
  err_token_expired, err_statement_not_found,
}
use arbokcore.World.{
  World, Tables, Go, Outcome, ok, err, panic, Result, value, error, pure, fail, attempt, call,
  get_tables, put_tables, get_now, get_started, next_fresh, ◌>>=◌, ◌>>◌,
}

pub record FindByClause : Type 0 where
  pub access_token : Text
  pub refresh_token : Text
  pub stream_token : Text
  pub resource_id : Text
  pub resource_type : Text
  pub user_id : Option Text
  pub test_mode : Bool

-- The error of a random generator that fails has this text.
abbrev pub err_rand : Text
err_rand = text "rand"

-- The generator's bytes as hexadecimal text are the next fresh value.
unfoldable pub generate_token : Go Text
generate_token = do o ← next_fresh; elim o [ none ↦ fail err_rand | some t ↦ pure t ]

unfoldable pub new_token : Text → Text → List TokenOpts → Go Token
unfolding generate_token apply_opts
new_token resource_id resource_type opts =
    let lowered = to_lower resource_type in
    if validate_resource_type lowered
    then (do
      access_token ← generate_token
      refresh_token ← generate_token
      now ← get_now
      pure (
          apply_opts opts (record zero_token {
            resource_id = resource_id;
            resource_type = lowered;
            access_token = access_token;
            refresh_token = refresh_token;
            refresh_expires_at = now + long_expiry_duration;
            created_at = now;
            updated_at = now;
          })))
    else fail err_token_validation_failed

-- The prepared statements of a table, by name.
abbrev pub QueryMapper : Type 0
QueryMapper = Dict Text

unfoldable pub get_query : QueryMapper → Text → Text → Go Text
get_query querier name missing = elim (lookup name querier) [
  | none ↦ fail missing
  | some stmt ↦ pure stmt
]

abbrev pub create_token_stmt : Text
create_token_stmt = text "CreateToken"

abbrev pub get_stream_token_stmt : Text
get_stream_token_stmt = text "GetStreamToken"

-- `user_id = :user_id`: NULL equals nothing.
abbrev pub sql_eq : Option Text → Option Text → Bool
sql_eq (some a) (some b) = a == b
sql_eq (some a) none = false
sql_eq none b = false

-- The row of GetStreamToken in core/tokens/queries.sql, `none` if there is none.
unfoldable pub stream_token_row : Text → Text → Option Text → Text → List Token → Option Token
stream_token_row access_token resource_id user_id resource_type [] = none
stream_token_row access_token resource_id user_id resource_type (t ∷ ts) =
    let rest = stream_token_row access_token resource_id user_id resource_type ts in
    if t.access_token == access_token
      && (t.resource_id == resource_id)
      && sql_eq t.user_id user_id
      && (t.resource_type == resource_type)
    then some t
    else rest

-- The scan of a row, if there is one; with no row the token stays `&Token{}`.
unfoldable pub scan : Option Token → Go Token
scan none = pure zero_token
scan (some t) = do call; pure t

unfoldable pub check_access : Token → Go Token
check_access token = do
  now ← get_now
  if has_access_expired now token then fail err_token_expired else pure token

unfoldable pub find_by_stream_token : QueryMapper → FindByClause → Go Token
unfolding get_query check_access scan
find_by_stream_token querier clause = do
  stmt ← get_query querier get_stream_token_stmt err_statement_not_found
  call
  t ← get_tables
  token ← scan (
      stream_token_row clause.stream_token clause.resource_id clause.user_id resource_type_stream
        t.tokens)
  check_access token

allowed : ℕ → Text → List Token → Outcome Token
allowed now access_token [] = err err_token_not_found
allowed now access_token (token ∷ tokens) =
    let rest = allowed now access_token tokens in
    if is_expired now token
    then err err_token_expired
    else if token.access_token == access_token
    then ok token
    else rest

unfoldable pub find_by_test_mode : FindByClause → Go Token
unfolding allowed
find_by_test_mode clause w =
    (allowed w.now clause.access_token (admin_token w.started ∷ another_token w.started ∷ []), w)

-- Outside the test mode the statement GetStreamToken is given no `user_id`: the driver's named query
-- fails with the text `unbound`.
unfoldable pub find_by_access_token : Text → QueryMapper → FindByClause → Go Token
unfolding get_query find_by_test_mode
find_by_access_token unbound querier clause =
    if clause.test_mode
    then find_by_test_mode clause
    else do stmt ← get_query querier get_stream_token_stmt err_statement_not_found; fail unbound

insert_token : QueryMapper → Token → Go Token
insert_token querier token = do
  stmt ← get_query querier create_token_stmt err_statement_not_found
  e ← attempt call
  elim e [
    | error e ↦ fail (text "token_create_failed:3002:500")
    | value u ↦ (do
      t ← get_tables
      put_tables (record t { tokens = t.tokens ++ token ∷ [] })
      pure token)
  ]

unfoldable pub create_session : QueryMapper → Text → Text → Option Text → Go Token
unfolding get_query insert_token new_token
create_session querier resource_id resource_type user_id = do
  now ← get_now
  r ←
      attempt
        (new_token resource_id resource_type (with_user_id user_id ∷ with_default_expiry now ∷ []))
  elim r [
    | error e ↦ fail (text "token_create_failed:3001:500")
    | value token ↦ insert_token querier token
  ]
