-- ===== src/World/Still.antt =====
-- Actions that leave the world as it was.
use arbokcore.Prelude.{Bool, true, false, ◌≡◌, refl, ◌∙◌, if◌then◌else◌}
use arbokcore.World.{World, Go, Outcome, ok, err, panic, continue, ◌>>=◌}

abbrev pub Still {ℓ} : {A : Type ℓ} → Go A → Type 0
Still m = (w : World) → (m w).1 ≡ w

pub continue-Still {ℓ κ} :
    {A : Type ℓ} {B : Type κ} (f : A → Go B) (r : Outcome A) (v : World)
    → ((a : A) → Still (f a))
    → (continue r f v).1 ≡ v
continue-Still f (ok a) v q = q a v
continue-Still f (err e) v q = refl
continue-Still f panic v q = refl

pub bind-Still {ℓ κ} :
    {A : Type ℓ} {B : Type κ} (m : Go A) (f : A → Go B)
    → Still m
    → ((a : A) → Still (f a))
    → Still (m >>= f)
bind-Still m f p q w = continue-Still f (m w).0 (m w).1 q ∙ p w

pub if-Still {ℓ} :
    {A : Type ℓ} (b : Bool) (m n : Go A) → Still m → Still n → Still (if b then m else n)
if-Still true m n p q = p
if-Still false m n p q = q
