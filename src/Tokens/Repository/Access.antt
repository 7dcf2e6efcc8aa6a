-- ===== src/Tokens/Repository/Access.antt =====
-- Which tokens the repository hands out.
use mathlib.Core.List.{Mem, mem-cons}
use mathlib.Core.Logic.Or
use arbokcore.Prelude.{
  ◌+◌, ◌≤◌, ◌<◌, Text, text, ◌==◌, eq_iff, Option, some, List, [], ◌∷◌, true, ◌&&◌, if◌then◌else◌,
  ◌≡◌, inl, inr, arith, ltb, Bool-cases,
}
use arbokcore.Tokens.{
  Token, has_access_expired, is_expired, admin_token, another_token, resource_type_stream, hour,
  err_token_expired, err_token_not_found,
}
use arbokcore.World.{World, ok, err}
use arbokcore.Tokens.Repository.{
  QueryMapper, FindByClause, sql_eq, stream_token_row, find_by_stream_token, find_by_access_token,
}

pub record IsRow (access_token resource_id : Text) (user_id : Option Text) (kind : Text) (t : Token)
    : Type 0 where
  pub access : t.access_token ≡ access_token
  pub resource : t.resource_id ≡ resource_id
  pub user : sql_eq t.user_id user_id ≡ true
  pub kind_same : t.resource_type ≡ kind

stream_token_row-IsRow :
    (access_token resource_id : Text) (user_id : Option Text) (kind : Text) (ts : List Token)
    (t : Token)
    → stream_token_row access_token resource_id user_id kind ts ≡ some t
    → IsRow access_token resource_id user_id kind t
unfolding stream_token_row
stream_token_row-IsRow a r u k [] t h = absurd (ground arith)
stream_token_row-IsRow a r u k (x ∷ ts) t h = ground (
  arith,
  eq_iff x.access_token a,
  eq_iff x.resource_id r,
  eq_iff x.resource_type k,
  stream_token_row-IsRow a r u k ts t,
)

stream_token_row-mem :
    (access_token resource_id : Text) (user_id : Option Text) (kind : Text) (ts : List Token)
    (t : Token)
    → stream_token_row access_token resource_id user_id kind ts ≡ some t
    → Mem t ts
unfolding stream_token_row
stream_token_row-mem a r u k [] t h = absurd (ground arith)
stream_token_row-mem a r u k (x ∷ ts) t h =
    elim (Bool-cases (
      x.access_token == a
      && (x.resource_id == r)
      && sql_eq x.user_id u
      && (x.resource_type == k))) [
        | inl hit ↦ mem-cons.1 (Or.inl (ground arith))
        | inr miss ↦ mem-cons.1 (Or.inr (stream_token_row-mem a r u k ts t (ground arith)))
      ]

find_by_stream_token-row :
    (querier : QueryMapper) (clause : FindByClause) (w : World) {t : Token}
    → 0 < w.now
    → (find_by_stream_token querier clause w).0 ≡ ok t
    → (stream_token_row clause.stream_token clause.resource_id clause.user_id resource_type_stream
          w.tables.tokens
        ≡ some t)
      × (w.now ≤ t.access_expires_at)
unfolding find_by_stream_token has_access_expired
find_by_stream_token-row querier clause w pos h = (ground arith, ground arith)

-- A token that `FindByStreamToken` returns, once the clock has left Go's zero time, is a row of the
-- tokens table with the stream token, the resource, the user and the type `stream` that were asked
-- for, and it has not expired.
pub find_by_stream_token-IsRow :
    (querier : QueryMapper) (clause : FindByClause) (w : World) {t : Token}
    → 0 < w.now
    → (find_by_stream_token querier clause w).0 ≡ ok t
    → Mem t w.tables.tokens
      × IsRow clause.stream_token clause.resource_id clause.user_id resource_type_stream t
      × (w.now ≤ t.access_expires_at)
find_by_stream_token-IsRow querier clause w {t} pos h =
    let (row, live) = find_by_stream_token-row querier clause w pos h in
    (
      stream_token_row-mem clause.stream_token clause.resource_id clause.user_id
          resource_type_stream w.tables.tokens t row,
      stream_token_row-IsRow clause.stream_token clause.resource_id clause.user_id
          resource_type_stream w.tables.tokens t row,
      live,
    )

-- In test mode `FindByAccessToken` accepts the two trial tokens for an hour from the start of the
-- process, each at its own text, refuses any other text as not found, and after the hour answers
-- every text with the error for an expired token. Nothing changes.
pub find_by_access_token-test_mode :
    (unbound : Text) (querier : QueryMapper) (clause : FindByClause) (w : World)
    → clause.test_mode ≡ true
    → find_by_access_token unbound querier clause w ≡ (
      (if ltb (w.started + hour) w.now
          then err err_token_expired
          else if text "trial_access_token" == clause.access_token
          then ok (admin_token w.started)
          else if text "trial_access_token_1" == clause.access_token
          then ok (another_token w.started)
          else err err_token_not_found),
      w,
    )
unfolding find_by_access_token admin_token another_token is_expired
find_by_access_token-test_mode unbound querier clause w h = ground arith
