-- ===== src/Users/Creation.antt =====
-- `NewUser` of core/users/user.go and `Create` of core/users/service.go. The hash of a password is the
-- caller's: `none` is an error of the library that makes it.
use arbokcore.Prelude.{
  ℕ, Text, text, Option, none, some, Option-cases, [], ◌∷◌, ◌++◌, lookup, ◌≡◌, ◌⊎◌, inl, inr, refl,
  arith,
}
use arbokcore.Tokens.{Token, admin_token}
use arbokcore.Tokens.Repository.{QueryMapper, get_query}
use arbokcore.Users.{User, user_type_normal}
use arbokcore.World.{
  World, Done, Go, ok, Result, value, error, pure, fail, attempt, call, first, get_tables,
  put_tables, get_now, get_started, next_fresh, ◌>>=◌, ◌>>◌,
}

abbrev user_of : Text → Text → Text → ℕ → User
user_of email id hashed_password now = record {
  id = id;
  user_type = user_type_normal;
  email = email;
  hashed_password = hashed_password;
  created_at = now;
  updated_at = now;
}

with_hash : Text → Text → Option Text → Go User
with_hash email id none = fail (text "password_gen_failed")
with_hash email id (some hashed_password) = do
  now ← get_now
  pure (user_of email id hashed_password now)

with_id : (Text → Option Text) → Text → Text → Option Text → Go User
with_id hash_password email password none = fail (text "id_gen_failed")
with_id hash_password email password (some id) = with_hash email id (hash_password password)

unfoldable pub new_user : (Text → Option Text) → Text → Text → Go User
unfolding with_id with_hash
new_user hash_password email password = do id ← next_fresh; with_id hash_password email password id

insert_user : User → Go Done
insert_user user = do call; t ← get_tables; put_tables (record t { users = t.users ++ user ∷ [] })

-- The error of the insertion is logged.
registered : QueryMapper → Result User → Go Token
registered querier (error e) = fail (text "user_creation_failed:1001:500")
registered querier (value user) = do
  stmt ← get_query querier (text "CreateUserQuery") (text "query_retriever_failed:1002:500")
  r ← attempt (insert_user user)
  started ← get_started
  pure (admin_token started)

unfoldable pub create : (Text → Option Text) → QueryMapper → Text → Text → Go Token
unfolding registered insert_user new_user get_query
create hash_password querier email password = do
  r ← attempt (new_user hash_password email password)
  registered querier r

-- `Create` answers with the fixed token of the administrator, whoever signs up and whether or not the
-- row was stored: where it returns a token, the token is that one, and the tables have gained the
-- row of the user with the generated id and the hash of the password, or none if the driver refused.
pub create-admin_token :
    (hash_password : Text → Option Text) (querier : QueryMapper) (email password : Text) (w : World)
    {token : Token}
    → (create hash_password querier email password w).0 ≡ ok token
    → (token ≡ admin_token w.started)
      × (((e : Text) × (first w.answers ≡ some e)
            × ((create hash_password querier email password w).1.tables ≡ w.tables))
          ⊎ ((user : User) × (user.email ≡ email)
              × (hash_password password ≡ some user.hashed_password)
              × (first w.fresh ≡ some user.id)
              × ((create hash_password querier email password w).1.tables
                  ≡ record (w.tables) { users = w.tables.users ++ user ∷ [] })))
unfolding create new_user get_query
create-admin_token hash_password querier email password w h = elim (Option-cases (first w.fresh)) [
  | inl f ↦ absurd (ground (arith, f))
  | inr (id, f) ↦ elim (Option-cases (hash_password password)) [
    | inl p ↦ absurd (ground (arith, f, p))
    | inr (hashed, p) ↦ elim (Option-cases (lookup (text "CreateUserQuery") querier)) [
      | inl q ↦ absurd (ground (arith, f, p, q))
      | inr (stmt, q) ↦ (
        ground (arith, f, p, q),
        elim (Option-cases (first w.answers)) [
          | inr (e, a) ↦ inl (e, a, ground (arith, f, p, q, a))
          | inl a ↦ inr (user_of email id hashed w.now, refl, p, f, ground (arith, f, p, q, a))
        ],
      )
    ]
  ]
]
