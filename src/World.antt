-- ===== src/World.antt =====
-- What the program's functions act on: the tables of migrations/sqlite/schema.up.sql, and the
-- answers of everything that is not the program's own code. A Go function that returns a value and
-- an error is an action: it may return a value, return an error, or panic.
pub mod Still
use arbokcore.Prelude.{
  ℕ, Text, Option, none, some, List, [], ◌∷◌, Dict, ◌≡◌, refl, ap, ◌⊎◌, inl, inr,
}
use arbokcore.Files.{FileMetadata, UserFile}
use arbokcore.Tokens.{Token}
use arbokcore.Users.{User}

pub data Outcome {ℓ} (A : Type ℓ) : Type ℓ where
  ok : A → Outcome A
  err : Text → Outcome A
  panic : Outcome A

pub record Tables : Type 0 where
  pub file_metadatas : List FileMetadata
  pub user_files : List UserFile
  pub tokens : List Token
  pub users : List User

-- `answers` has the driver's answer to each call in turn, `none` for success; past its end every
-- call succeeds. `fresh` has what the generators of ids and of random tokens return, `none` for a
-- failure; past its end they fail. `now` is the clock, read once for a request, and `started` the
-- time at which the process started. `queues` has the lists that Redis keeps, by name, and `cache`
-- its keys with their values, whose calls have answers of their own, `cache_answers`: a key that has
-- expired is a read that fails. `disk` has the contents of the files, by path.
pub record World : Type 0 where
  pub tables : Tables
  pub answers : List (Option Text)
  pub fresh : List (Option Text)
  pub now : ℕ
  pub started : ℕ
  pub queues : Dict (List Text)
  pub cache : Dict Text
  pub cache_answers : List (Option Text)
  pub disk : Dict Text

abbrev pub Go {ℓ} : Type ℓ → Type ℓ
Go A = World → Outcome A × World

-- The value of a function that returns an error only.
abbrev pub Done : Type 0
Done = Unit

module _ {ℓ} {A : Type ℓ} where
  abbrev pub pure : A → Go A
  pure a w = (ok a, w)

  abbrev pub fail : Text → Go A
  fail e w = (err e, w)

  abbrev pub crash : Go A
  crash w = (panic, w)

  abbrev pub first : List (Option A) → Option A
  first [] = none
  first (a ∷ rest) = a

  abbrev pub others : List (Option A) → List (Option A)
  others [] = []
  others (a ∷ rest) = rest

module _ {ℓ κ} {A : Type ℓ} {B : Type κ} where
  abbrev pub continue : Outcome A → (A → World → Outcome B × World) → World → Outcome B × World
  continue (ok a) f w = f a w
  continue (err e) f w = (err e, w)
  continue panic f w = (panic, w)

infixl 5 ◌>>=◌ ◌>>◌
abbrev pub ◌>>=◌ {ℓ κ} : {A : Type ℓ} {B : Type κ} → Go A → (A → Go B) → Go B
◌>>=◌ m f w = continue (m w).0 f (m w).1

abbrev pub ◌>>◌ {ℓ} : {B : Type ℓ} → Go (Unit {0}) → Go B → Go B
m >> k = m >>= λ _. k

-- The value of `err` after a call, with the call's value where there is no error.
pub data Result {ℓ} (A : Type ℓ) : Type ℓ where
  value : A → Result A
  error : Text → Result A

abbrev pub settle {ℓ} : {A : Type ℓ} → Outcome A → World → Outcome (Result A) × World
settle (ok a) w = (ok (value a), w)
settle (err e) w = (ok (error e), w)
settle panic w = (panic, w)

-- A call whose error the caller looks at.
abbrev pub attempt {ℓ} : {A : Type ℓ} → Go A → Go (Result A)
attempt m w = settle (m w).0 (m w).1

-- The next answer of the driver.
abbrev pub ask : Go (Option Text)
ask w = (ok (first w.answers), record w { answers = others w.answers })

abbrev pub or_fail : Option Text → Go (Unit {0})
or_fail none = pure tt
or_fail (some e) = fail e

-- One call of the driver that changes nothing by itself, and returns its error.
abbrev pub call : Go (Unit {0})
call = do e ← ask; or_fail e

abbrev pub get_tables : Go Tables
get_tables w = (ok w.tables, w)

abbrev pub put_tables : Tables → Go (Unit {0})
put_tables t w = (ok tt, record w { tables = t })

abbrev pub get_now : Go ℕ
get_now w = (ok w.now, w)

abbrev pub get_started : Go ℕ
get_started w = (ok w.started, w)

-- The next value of the generators.
abbrev pub next_fresh : Go (Option Text)
next_fresh w = (ok (first w.fresh), record w { fresh = others w.fresh })

-- One of two values, by whether a call has returned without an error.
abbrev pub if_ok {ℓ κ} : {A : Type ℓ} {B : Type κ} → Outcome A → B → B → B
if_ok (ok a) x y = x
if_ok (err e) x y = y
if_ok panic x y = y

pub Outcome-cases {ℓ} :
    {A : Type ℓ} (r : Outcome A) → ((a : A) × (r ≡ ok a)) ⊎ ((e : Text) × (r ≡ err e)) ⊎ (r ≡ panic)
Outcome-cases (ok a) = inl (a, refl)
Outcome-cases (err e) = inr (inl (e, refl))
Outcome-cases panic = inr (inr refl)

pub bind-ok {ℓ κ} :
    {A : Type ℓ} {B : Type κ} (m : Go A) (f : A → Go B) (w : World) {a : A}
    → (m w).0 ≡ ok a
    → (m >>= f) w ≡ f a (m w).1
bind-ok m f w h = ap (λ r. continue r f (m w).1) h

pub bind-err {ℓ κ} :
    {A : Type ℓ} {B : Type κ} (m : Go A) (f : A → Go B) (w : World) {e : Text}
    → (m w).0 ≡ err e
    → (m >>= f) w ≡ (err e, (m w).1)
bind-err m f w h = ap (λ r. continue r f (m w).1) h

pub bind-attempt-ok {ℓ κ} :
    {A : Type ℓ} {B : Type κ} (m : Go A) (f : Result A → Go B) (w : World) {a : A}
    → (m w).0 ≡ ok a
    → (attempt m >>= f) w ≡ f (value a) (m w).1
bind-attempt-ok m f w h = ap (λ r. continue (settle r (m w).1).0 f (settle r (m w).1).1) h

pub bind-attempt-err {ℓ κ} :
    {A : Type ℓ} {B : Type κ} (m : Go A) (f : Result A → Go B) (w : World) {e : Text}
    → (m w).0 ≡ err e
    → (attempt m >>= f) w ≡ f (error e) (m w).1
bind-attempt-err m f w h = ap (λ r. continue (settle r (m w).1).0 f (settle r (m w).1).1) h
