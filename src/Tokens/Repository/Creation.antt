-- ===== src/Tokens/Repository/Creation.antt =====
-- What a new token is, and what `CreateSession` adds to the table.
use arbokcore.Prelude.{◌+◌, Text, Option, some, [], ◌∷◌, ◌++◌, true, ◌≡◌, ◌⊎◌, inl, inr, arith}
use arbokcore.Tokens.{
  Token, to_lower, validate_resource_type, with_user_id, with_default_expiry,
  access_expiry_duration, long_expiry_duration,
}
use arbokcore.World.{World, ok, err, first, others, Outcome-cases}
use arbokcore.Tokens.Repository.{QueryMapper, new_token, create_session}

pub record IsFresh (w : World) (resource_id resource_type : Text) (user_id : Option Text)
    (t : Token) : Type 0 where
  pub resource : t.resource_id ≡ resource_id
  pub kind : t.resource_type ≡ to_lower resource_type
  pub kind_known : validate_resource_type t.resource_type ≡ true
  pub user : t.user_id ≡ user_id
  pub access_end : t.access_expires_at ≡ w.now + access_expiry_duration
  pub refresh_end : t.refresh_expires_at ≡ w.now + long_expiry_duration
  pub access_random : some t.access_token ≡ first w.fresh
  pub refresh_random : some t.refresh_token ≡ first (others w.fresh)

new_token-IsFresh :
    (w : World) (resource_id resource_type : Text) (user_id : Option Text) {t : Token}
    → (new_token resource_id resource_type
        (with_user_id user_id ∷ with_default_expiry w.now ∷ [])
        w).0
      ≡ ok t
    → IsFresh w resource_id resource_type user_id t
unfolding new_token with_user_id with_default_expiry
new_token-IsFresh w resource_id resource_type user_id h = ground arith

-- A session that `CreateSession` returns is the row that it has added at the end of the tokens: for
-- the resource and the user that were asked for, of a known resource type, with the generator's
-- two texts, valid for a day, and refreshable for thirty.
create_session-IsFresh :
    (querier : QueryMapper) (resource_id resource_type : Text) (user_id : Option Text) (w : World)
    {t : Token}
    → (create_session querier resource_id resource_type user_id w).0 ≡ ok t
    → IsFresh w resource_id resource_type user_id t
      × ((create_session querier resource_id resource_type user_id w).1.tables
          ≡ record (w.tables) { tokens = w.tables.tokens ++ t ∷ [] })
unfolding create_session with_user_id with_default_expiry
create_session-IsFresh querier resource_id resource_type user_id w h = (ground arith, ground arith)

-- A call of `CreateSession` that returns an error leaves the tables as they were.
create_session-keeps :
    (querier : QueryMapper) (resource_id resource_type : Text) (user_id : Option Text) (w : World)
    {e : Text}
    → (create_session querier resource_id resource_type user_id w).0 ≡ err e
    → (create_session querier resource_id resource_type user_id w).1.tables ≡ w.tables
unfolding create_session with_user_id with_default_expiry
create_session-keeps querier resource_id resource_type user_id w h = ground arith

-- `CreateSession` never panics. Either the session that it returns is the row that it has added at
-- the end of the tokens: for the resource and the user that were asked for, of a known resource
-- type, with the generator's two texts, valid for a day, and refreshable for thirty; or it returns
-- an error and leaves the tables as they were.
pub create_session-Created :
    (querier : QueryMapper) (resource_id resource_type : Text) (user_id : Option Text) (w : World)
    → ((t : Token) × ((create_session querier resource_id resource_type user_id w).0 ≡ ok t)
        × IsFresh w resource_id resource_type user_id t
        × ((create_session querier resource_id resource_type user_id w).1.tables
            ≡ record (w.tables) { tokens = w.tables.tokens ++ t ∷ [] }))
      ⊎ ((e : Text) × ((create_session querier resource_id resource_type user_id w).0 ≡ err e)
          × ((create_session querier resource_id resource_type user_id w).1.tables ≡ w.tables))
unfolding create_session
create_session-Created querier resource_id resource_type user_id w =
    elim (Outcome-cases (create_session querier resource_id resource_type user_id w).0) [
      | inl (t, h) ↦
          (let k = create_session-IsFresh querier resource_id resource_type user_id w h in
            inl (t, h, k.0, k.1))
      | inr (inl (e, h)) ↦
          inr (e, h, create_session-keeps querier resource_id resource_type user_id w h)
      | inr (inr h) ↦ absurd (ground (arith, h))
    ]
