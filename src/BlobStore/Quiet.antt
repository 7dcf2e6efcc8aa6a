-- ===== src/BlobStore/Quiet.antt =====
-- Actions that change neither the tables nor the clock and do not panic.
use arbokcore.Prelude.{
  Text, Option-cases, Bool, true, false, ◌≡◌, ◌≢◌, inl, inr, refl, ◌∙◌, arith, if◌then◌else◌,
}
use arbokcore.World.{
  World, Go, Outcome, ok, err, panic, first, pure, fail, call, attempt, settle, continue, ◌>>=◌,
}

pub record IsQuiet {ℓ} {A : Type ℓ} (w : World) (run : Outcome A × World) : Type ℓ where
  pub calm : run.0 ≢ panic
  pub tables : run.1.tables ≡ w.tables
  pub now : run.1.now ≡ w.now

abbrev pub Quiet {ℓ} : {A : Type ℓ} → Go A → Type ℓ
Quiet m = (w : World) → IsQuiet w (m w)

pub pure-IsQuiet {ℓ} : {A : Type ℓ} (a : A) → Quiet (pure a)
pure-IsQuiet a w = record { calm = λ h. cc; tables = refl; now = refl }

pub fail-IsQuiet {ℓ} : {A : Type ℓ} (e : Text) → Quiet (fail {A = A} e)
fail-IsQuiet e w = record { calm = λ h. cc; tables = refl; now = refl }

pub call-IsQuiet : Quiet call
call-IsQuiet w = elim (Option-cases (first w.answers)) [
  | inl a ↦ record {
    calm = λ h. ground (arith, a, h);
    tables = ground (arith, a);
    now = ground (arith, a);
  }
  | inr (e, a) ↦ record {
    calm = λ h. ground (arith, a, h);
    tables = ground (arith, a);
    now = ground (arith, a);
  }
]

settle-IsQuiet {ℓ} :
    {A : Type ℓ} (w v : World) (r : Outcome A) → IsQuiet w (r, v) → IsQuiet w (settle r v)
settle-IsQuiet w v (ok a) q = record { calm = λ h. cc; tables = q.tables; now = q.now }
settle-IsQuiet w v (err e) q = record { calm = λ h. cc; tables = q.tables; now = q.now }
settle-IsQuiet w v panic q = absurd (q.calm refl)

pub attempt-IsQuiet {ℓ} : {A : Type ℓ} (m : Go A) → Quiet m → Quiet (attempt m)
attempt-IsQuiet m q w = settle-IsQuiet w (m w).1 (m w).0 (q w)

continue-IsQuiet {ℓ κ} :
    {A : Type ℓ} {B : Type κ} (f : A → Go B) (w v : World) (r : Outcome A)
    → IsQuiet w (r, v)
    → ((a : A) → Quiet (f a))
    → IsQuiet w (continue r f v)
continue-IsQuiet f w v (ok a) q k = record {
  calm = (k a v).calm;
  tables = (k a v).tables ∙ q.tables;
  now = (k a v).now ∙ q.now;
}
continue-IsQuiet f w v (err e) q k = record { calm = λ h. cc; tables = q.tables; now = q.now }
continue-IsQuiet f w v panic q k = absurd (q.calm refl)

pub bind-IsQuiet {ℓ κ} :
    {A : Type ℓ} {B : Type κ} (m : Go A) (f : A → Go B)
    → Quiet m
    → ((a : A) → Quiet (f a))
    → Quiet (m >>= f)
bind-IsQuiet m f q k w = continue-IsQuiet f w (m w).1 (m w).0 (q w) k

pub if-IsQuiet {ℓ} :
    {A : Type ℓ} (b : Bool) (m n : Go A) → Quiet m → Quiet n → Quiet (if b then m else n)
if-IsQuiet true m n p q = p
if-IsQuiet false m n p q = q
