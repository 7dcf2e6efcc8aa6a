-- ===== src/Prelude/Decimal.antt =====
-- `fmt.Sprintf("%d", n)` and `strconv.Atoi`, on the digits.
use arbokcore.Prelude.Tests.{if◌then◌else◌, ltb, leb, eqb, Bool-cases}
use arbokcore.Prelude.Bytes.{Text, Lacks}
use arbokcore.Prelude.Int.{ℤ, pos, negsuc, neg}
use Prim.Native.Nat.{ℕ, zero, suc, ◌+◌, ◌-◌, ◌*◌, ◌/◌, ◌%◌, ◌^◌, ◌<◌, ◌≤◌}
use mathlib.Core.Path.{◌≡◌, refl, sym, ap, subst, ◌∙◌}
use mathlib.Core.Logic.{inl, inr}
use mathlib.Core.Bool.{Bool, true, false, ◌&&◌}
use mathlib.Core.Option.{Option, none, some}
use mathlib.Core.List.{[], ◌∷◌}
use native.Mathlib.Omega.{arith}

-- The decimal digits of a number before `rest`, on fuel.
digits_onto : ℕ → ℕ → Text → Text
digits_onto zero n rest = rest
digits_onto (suc f) n rest =
    let more = digits_onto f (n / 10) ((48 + n % 10) ∷ rest) in
    if ltb n 10 then (48 + n) ∷ rest else more

unfoldable pub decimal : ℕ → Text
unfolding digits_onto
decimal n = digits_onto (suc n) n []

unfoldable pub show_ℤ : ℤ → Text
unfolding decimal
show_ℤ (pos n) = decimal n
show_ℤ (negsuc n) = b'-' ∷ decimal (suc n)

-- The value of a run of digits, `none` at any other byte.
unfoldable pub digits_value : ℕ → Text → Option ℕ
digits_value acc [] = some acc
digits_value acc (c ∷ s) =
    let rest = digits_value (acc * 10 + (c - 48)) s in if leb 48 c && leb c 57 then rest else none

digits_value-digit :
    (acc d : ℕ) (rest : Text)
    → d < 10
    → digits_value acc ((48 + d) ∷ rest) ≡ digits_value (acc * 10 + d) rest
unfolding digits_value
digits_value-digit acc d rest h = ground arith

digits_value-onto :
    (f n : ℕ) (rest : Text) → n < f → digits_value 0 (digits_onto f n rest) ≡ digits_value n rest
unfolding digits_onto
digits_value-onto zero n rest h = elim h [ ]
digits_value-onto (suc f) n rest h = elim (Bool-cases (ltb n 10)) [
  | inl small ↦ rw small (
      digits_value-digit 0 n rest (ground arith)
      ∙ ap (λ (t : ℕ). digits_value t rest) (omega arith))
  | inr big ↦ rw big (
      digits_value-onto f (n / 10) ((48 + n % 10) ∷ rest) (ground arith)
      ∙ (digits_value-digit (n / 10) (n % 10) rest (omega arith)
          ∙ ap (λ (t : ℕ). digits_value t rest) (omega arith)))
]

pub digits_value-decimal : (n : ℕ) → digits_value 0 (decimal n) ≡ some n
unfolding decimal digits_value
digits_value-decimal n = digits_value-onto (suc n) n [] (omega arith)

pub decimal_injective : (m n : ℕ) → decimal m ≡ decimal n → m ≡ n
decimal_injective m n e = cc (digits_value-decimal m, digits_value-decimal n)

-- The bytes are digits: 48 to 57.
abbrev pub Digits : Text → Type 0
Digits [] = Unit {0}
Digits (c ∷ s) = (48 ≤ c) × (c ≤ 57) × Digits s

digits_onto-Digits : (f n : ℕ) (rest : Text) → Digits rest → Digits (digits_onto f n rest)
unfolding digits_onto
digits_onto-Digits zero n rest h = h
digits_onto-Digits (suc f) n rest h = elim (Bool-cases (ltb n 10)) [
  | inl small ↦ rw small (omega arith, ground arith, h)
  | inr big ↦
      rw big (digits_onto-Digits f (n / 10) ((48 + n % 10) ∷ rest) (omega arith, omega arith, h))
]

pub decimal-Digits : (n : ℕ) → Digits (decimal n)
unfolding decimal
decimal-Digits n = digits_onto-Digits (suc n) n [] tt

pub Digits-Lacks : (c : ℕ) (s : Text) → 57 < c → Digits s → Lacks c s
Digits-Lacks c [] h d = tt
Digits-Lacks c (x ∷ s) h d = (ground arith, Digits-Lacks c s h d.2)

digits_onto-cons :
    (f n : ℕ) (rest : Text) → (c : ℕ) × (s : Text) × (digits_onto (suc f) n rest ≡ c ∷ s)
unfolding digits_onto
digits_onto-cons zero n rest = elim (Bool-cases (ltb n 10)) [
  | inl small ↦ (48 + n, rest, rw small)
  | inr big ↦ (48 + n % 10, rest, rw big)
]
digits_onto-cons (suc f) n rest = elim (Bool-cases (ltb n 10)) [
  | inl small ↦ (48 + n, rest, rw small)
  | inr big ↦ rw big (digits_onto-cons f (n / 10) ((48 + n % 10) ∷ rest))
]

pub decimal-cons : (n : ℕ) → (c : ℕ) × (s : Text) × (decimal n ≡ c ∷ s)
unfolding decimal
decimal-cons n = digits_onto-cons n n []

-- A number does not begin with a sign, so `%d` of two integers is one text only if they are equal.
decimal-ne-minus : (n : ℕ) (s : Text) → decimal n ≡ b'-' ∷ s → ⊥
decimal-ne-minus n s e =
    let digits : Digits (b'-' ∷ s) = subst Digits e (decimal-Digits n) in
    absurd (omega (arith, digits.0))

pub show_ℤ_injective : (a b : ℤ) → show_ℤ a ≡ show_ℤ b → a ≡ b
unfolding show_ℤ
show_ℤ_injective (pos m) (pos n) e = ap pos (decimal_injective m n e)
show_ℤ_injective (pos m) (negsuc n) e = absurd (decimal-ne-minus m _ e)
show_ℤ_injective (negsuc m) (pos n) e = absurd (decimal-ne-minus n _ (sym e))
show_ℤ_injective (negsuc m) (negsuc n) e =
    ground (arith, decimal_injective (suc m) (suc n) (tail_eq e))
  where
    tail_eq : {x y : ℕ} {s t : Text} → x ∷ s ≡ y ∷ t → s ≡ t
    tail_eq h = cc

-- `strconv.Atoi` and `strconv.ParseInt(s, 10, 64)`: the value, and whether the error is nil. A
-- syntax error gives 0, a value out of range the nearest bound.
abbrev signed : Bool → Option ℕ → ℤ × Bool
signed minus none = (pos 0, false)
signed true (some n) = if leb n (2 ^ 63) then (neg n, true) else (neg (2 ^ 63), false)
signed false (some n) = if ltb n (2 ^ 63) then (pos n, true) else (pos (2 ^ 63 - 1), false)

number : Bool → Text → ℤ × Bool
number minus [] = (pos 0, false)
number minus (c ∷ s) = signed minus (digits_value 0 (c ∷ s))

unfoldable pub atoi : Text → ℤ × Bool
unfolding number
atoi [] = (pos 0, false)
atoi (c ∷ s) =
    if eqb c b'-'
    then number true s
    else if eqb c b'+'
    then number false s
    else number false (c ∷ s)

atoi-Digits :
    (c : ℕ) (s : Text) (n : ℕ)
    → Digits (c ∷ s)
    → digits_value 0 (c ∷ s) ≡ some n
    → n < 2 ^ 63
    → atoi (c ∷ s) ≡ (pos n, true)
unfolding atoi
atoi-Digits c s n d e h = rw e (ground arith)

pub atoi-decimal : (n : ℕ) → n < 2 ^ 63 → atoi (decimal n) ≡ (pos n, true)
atoi-decimal n h =
    let (c, s, e) = decimal-cons n in
    subst (λ t. atoi t ≡ (pos n, true)) (sym e)
      (atoi-Digits c s n (subst Digits e (decimal-Digits n))
        (subst (λ t. digits_value 0 t ≡ some n) e (digits_value-decimal n)) h)

pub show_ℤ-cons : (a : ℤ) → (c : ℕ) × (s : Text) × (show_ℤ a ≡ c ∷ s)
unfolding show_ℤ
show_ℤ-cons (pos n) = decimal-cons n
show_ℤ-cons (negsuc n) = (b'-', decimal (suc n), refl)
