-- ===== src/WorkerPool/Totals.antt =====
-- Sums over the workers, and how often an index stands in a list.
use arbokcore.Prelude.{
  ℕ, zero, suc, ◌+◌, ◌≤◌, ◌<◌, List, [], ◌∷◌, ◌++◌, false, eqb, if◌then◌else◌, length, eqb_iff, ltb,
  ltb→lt, Bool-cases, inl, inr, ◌≡◌, refl, ap, arith,
}
use arbokcore.WorkerPool.{put_at}

abbrev pub sum_to : ℕ → (ℕ → ℕ) → ℕ
sum_to zero f = 0
sum_to (suc n) f = sum_to n f + f n

abbrev pub count : ℕ → List ℕ → ℕ
count i [] = 0
count i (j ∷ js) = (if eqb i j then 1 else 0) + count i js

pub count-append : (i : ℕ) (xs ys : List ℕ) → count i (xs ++ ys) ≡ count i xs + count i ys
count-append i [] ys = omega arith
count-append i (x ∷ xs) ys = omega (arith, count-append i xs ys)

pub sum_to-same : (n : ℕ) (f g : ℕ → ℕ) → ((j : ℕ) → j < n → f j ≡ g j) → sum_to n f ≡ sum_to n g
sum_to-same zero f g h = refl
sum_to-same (suc n) f g h =
    omega (arith, sum_to-same n f g (λ j p. h j (omega arith)), h n (omega arith))

-- Two families that differ at one index only.
pub sum_to-change :
    (n : ℕ) (f g : ℕ → ℕ) (i : ℕ)
    → i < n
    → ((j : ℕ) → eqb i j ≡ false → f j ≡ g j)
    → sum_to n f + g i ≡ sum_to n g + f i
sum_to-change zero f g i h same = elim h [ ]
sum_to-change (suc n) f g i h same = elim (Bool-cases (eqb i n)) [
  | inl last ↦
      rw ((eqb_iff i n).0 last) (omega (arith, sum_to-same n f g (λ j p. same j (ground arith))))
  | inr earlier ↦ omega (arith, sum_to-change n f g i (ground arith) same, same n earlier)
]

pub sum_to_mono : (n : ℕ) (f g : ℕ → ℕ) → ((j : ℕ) → j < n → f j ≤ g j) → sum_to n f ≤ sum_to n g
sum_to_mono zero f g h = omega arith
sum_to_mono (suc n) f g h =
    omega (arith, sum_to_mono n f g (λ j p. h j (omega arith)), h n (omega arith))

-- One member of a family is replaced.
pub sum_to-put_at {ℓ} :
    {A : Type ℓ} (n : ℕ) (f : A → ℕ) (family : ℕ → A) (i : ℕ) (a : A)
    → i < n
    → sum_to n (λ j. f (put_at family i a j)) + f (family i) ≡ sum_to n (λ j. f (family j)) + f a
sum_to-put_at n f family i a h = omega (
  arith,
  ap (λ b. f (if b then a else family i)) ((eqb_iff i i).1 refl),
  sum_to-change n (λ j. f (put_at family i a j)) (λ j. f (family j)) i h
      (λ j e. ap (λ b. f (if b then a else family j)) e),
)

pub sum_to-zero : (n : ℕ) → sum_to n (λ j. 0) ≡ 0
sum_to-zero zero = refl
sum_to-zero (suc n) = omega (arith, sum_to-zero n)

-- A list of indices below `n` is as long as its indices are counted.
pub sum_to-count :
    (n : ℕ) (xs : List ℕ)
    → ((j : ℕ) → n ≤ j → count j xs ≡ 0)
    → sum_to n (λ j. count j xs) ≡ length xs
sum_to-count n [] h = sum_to-zero n
sum_to-count n (x ∷ xs) h = elim (Bool-cases (ltb x n)) [
  | inr out ↦ absurd (ground (arith, h x))
  | inl below ↦ ground (
    arith,
    sum_to-change n (λ j. count j (x ∷ xs)) (λ j. count j xs) x (ltb→lt x n below)
        (λ j e. ground (arith, eqb_iff x j, eqb_iff j x)),
    sum_to-count n xs (λ j p. ground (arith, h j)),
  )
]

-- Members that are at most 1, and one of them 0.
pub sum_to-le : (n : ℕ) (f : ℕ → ℕ) → ((j : ℕ) → j < n → f j ≤ 1) → sum_to n f ≤ n
sum_to-le zero f h = omega arith
sum_to-le (suc n) f h = omega (arith, sum_to-le n f (λ j p. h j (omega arith)), h n (omega arith))

pub sum_to-lt :
    (n : ℕ) (f : ℕ → ℕ) (i : ℕ) → ((j : ℕ) → j < n → f j ≤ 1) → i < n → f i ≡ 0 → sum_to n f < n
sum_to-lt zero f i h b e = elim b [ ]
sum_to-lt (suc n) f i h b e = elim (Bool-cases (eqb i n)) [
  | inl last ↦
      ground (arith, ap f ((eqb_iff i n).0 last), e, sum_to-le n f (λ j p. h j (omega arith)))
  | inr earlier ↦ ground (arith, sum_to-lt n f i (λ j p. h j (omega arith)), h n (omega arith), e)
]

pub sum_to-positive : (n : ℕ) (f : ℕ → ℕ) → 0 < sum_to n f → (i : ℕ) × (i < n) × (0 < f i)
sum_to-positive zero f h = absurd (omega arith)
sum_to-positive (suc n) f h = elim (Bool-cases (ltb 0 (f n))) [
  | inl here ↦ (n, omega arith, ltb→lt 0 (f n) here)
  | inr below ↦
      (let found = sum_to-positive n f (ground (arith, below)) in
        (found.0, omega (arith, found.1), found.2))
]
