-- ===== src/Middlewares/Guards.antt =====
-- Which requests the guards let through.
use mathlib.Core.List.{Mem}
use arbokcore.Prelude.{
  ◌<◌, ◌≤◌, ◌==◌, Text, text, Option, none, some, [], ◌∷◌, false, strip_prefix, Lacks, split-Lacks,
  ◌≡◌, inl, inr, refl, arith,
}
use arbokcore.Tokens.{Token, resource_type_stream}
use arbokcore.Tokens.Repository.{QueryMapper, FindByClause, find_by_stream_token}
use arbokcore.Tokens.Repository.Access.{IsRow, find_by_stream_token-IsRow}
use arbokcore.World.{World, ok, panic, Outcome-cases}
use arbokcore.Middlewares.{
  Request, next, get_bearer_token, or_else_text, stream_clause, device_of, with_device,
  with_bearers, validate_stream_token, add_token_from_url_to_header, add_splits,
}

-- A token that lets a request through.
pub record Admitted (req : Request) (w : World) (token : Token) : Type 0 where
  pub access_token : Text
  pub stream_token : Text
  pub row : Token
  pub access_bearer : get_bearer_token req.access_header ≡ some access_token
  pub stream_bearer : get_bearer_token req.stream_header ≡ some stream_token
  pub member : Mem row w.tables.tokens
  pub is_row :
      IsRow stream_token
        (or_else_text req.file_id_query req.file_id_param)
        (some (text "U11223455"))
        resource_type_stream
        row
  pub live : w.now ≤ row.access_expires_at
  pub given : token ≡ record row { device_id = device_of access_token }

with_device-next :
    (querier : QueryMapper) (clause : FindByClause) (w : World) {token : Token}
    → (with_bearers querier clause.resource_id
        (some clause.access_token)
        (some clause.stream_token)
        w).0
      ≡ ok (next token)
    → (row : Token) × ((find_by_stream_token querier
          (stream_clause clause.access_token clause.stream_token clause.resource_id)
          w).0
        ≡ ok row)
      × (token ≡ record row { device_id = device_of clause.access_token })
unfolding with_bearers with_device
with_device-next querier clause w h =
    elim (Outcome-cases
      (find_by_stream_token querier
        (stream_clause clause.access_token clause.stream_token clause.resource_id) w).0) [
          | inl (row, e) ↦ (row, e, ground (arith, e))
          | inr (inl (x, e)) ↦ absurd (ground (arith, e))
          | inr (inr e) ↦ absurd (ground (arith, e))
        ]

with_bearers-some :
    (querier : QueryMapper) (file_id : Text) (access stream : Option Text) (w : World)
    {token : Token}
    → (with_bearers querier file_id access stream w).0 ≡ ok (next token)
    → (a : Text) × (b : Text) × (access ≡ some a) × (stream ≡ some b)
unfolding with_bearers
with_bearers-some querier file_id none stream w h = absurd (ground arith)
with_bearers-some querier file_id (some a) none w h = absurd (ground arith)
with_bearers-some querier file_id (some a) (some b) w h = (a, b, refl, refl)

-- Once the clock has left Go's zero time, a request that `ValidateStreamToken` lets through has a
-- bearer in both headers, and the second is the text of a stream token in the tables for the
-- request's file and the admin user, which has not expired; the handler is given that row, with
-- the device of the first bearer.
pub validate_stream_token-Admitted :
    (querier : QueryMapper) (req : Request) (w : World) {token : Token}
    → 0 < w.now
    → (validate_stream_token querier req w).0 ≡ ok (next token)
    → Admitted req w token
unfolding validate_stream_token
validate_stream_token-Admitted querier req w {token} pos h =
    let file_id = or_else_text req.file_id_query req.file_id_param in
    let ran : (with_bearers querier file_id (get_bearer_token req.access_header)
          (get_bearer_token req.stream_header) w).0
        ≡ ok (next token) =
      ground arith in
    let (a, b, p, q) =
      with_bearers-some querier file_id (get_bearer_token req.access_header)
        (get_bearer_token req.stream_header) w ran in
    let (row, found, given) =
      with_device-next querier (stream_clause a b file_id) w (rw (p, q) at ran) in
    let (member, is_row, live) =
      find_by_stream_token-IsRow querier (stream_clause a b file_id) w pos found in
    record {
      access_token = a;
      stream_token = b;
      row = row;
      access_bearer = p;
      stream_bearer = q;
      member = member;
      is_row = is_row;
      live = live;
      given = given;
    }

bearer-nonempty : (header a : Text) → get_bearer_token header ≡ some a → header == [] ≡ false
unfolding get_bearer_token strip_prefix ◌==◌
bearer-nonempty [] a h = ground arith
bearer-nonempty (c ∷ s) a h = refl

with_bearers-any :
    (querier : QueryMapper) (file_id a b : Text) (stream : Option Text)
    → device_of a ≡ device_of b
    → with_bearers querier file_id (some a) stream ≡ with_bearers querier file_id (some b) stream
unfolding with_bearers find_by_stream_token
with_bearers-any querier file_id a b none d = refl
with_bearers-any querier file_id a b (some s) d = rw d refl

-- `ValidateStreamToken` does not look the bearer of the access header up: where it and any other
-- bearer stand for the same device, a request with the other one gets the same reply and leaves the
-- same world.
pub validate_stream_token-any_access :
    (querier : QueryMapper) (req : Request) (other a b : Text) (w : World)
    → get_bearer_token req.access_header ≡ some a
    → get_bearer_token other ≡ some b
    → device_of a ≡ device_of b
    → validate_stream_token querier req w
      ≡ validate_stream_token querier (record req { access_header = other }) w
unfolding validate_stream_token
validate_stream_token-any_access querier req other a b w p q d =
    rw
      (
        p,
        q,
        bearer-nonempty req.access_header a p,
        bearer-nonempty other b q,
        with_bearers-any querier (or_else_text req.file_id_query req.file_id_param) a b
            (get_bearer_token req.stream_header) d,
      )
      refl

-- `AddTokenFromUrlToHeader` panics at every request whose signature parameter has no colon, one
-- without the parameter among them.
pub add_token_from_url_to_header-panics :
    (req : Request) (w : World)
    → Lacks b':' req.sig_token
    → (add_token_from_url_to_header req w).0 ≡ panic
unfolding add_token_from_url_to_header
add_token_from_url_to_header-panics req w h = rw (split-Lacks b':' req.sig_token h, add_splits) refl
