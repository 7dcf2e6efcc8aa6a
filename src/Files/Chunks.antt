-- ===== src/Files/Chunks.antt =====
-- `CalculateChunks` of core/files/model.go, in float64 as the source computes it. The divisor is a
-- power of two, so the quotient of a float64 by it is exact, and is kept here as its numerator over
-- `frontend_chunk_size`; the conversion of the size and the addition of 1.0 round.
use arbokcore.Prelude.{
  ℕ, zero, suc, ◌+◌, ◌*◌, ◌/◌, ◌%◌, ◌^◌, ◌≤◌, ◌≡◌, ◌↔◌, refl, ltb, true, false, if◌then◌else◌,
  arith, Bool-cases, inl, inr,
}
use arbokcore.Prelude.Int.{ℤ, pos, negsuc, neg}

abbrev pub frontend_chunk_size : ℕ
frontend_chunk_size = 4 * 1024 * 1024

-- The multiple of `unit` nearest to a number, the even one of two.
unfoldable pub nearest : ℕ → ℕ → ℕ
nearest unit n =
    let below = n / unit in
    let rest = 2 * (n % unit) in
    if ltb rest unit
    then below * unit
    else (if ltb unit rest then (below + 1) * unit else (below + below % 2) * unit)

-- A number with 53 bits over `unit` or a larger power of two, as many doublings as are given.
unfoldable pub rounded : ℕ → ℕ → ℕ → ℕ
unfolding nearest
rounded zero unit n = nearest unit n
rounded (suc doublings) unit n =
    let further = rounded doublings (2 * unit) n in
    if ltb n (2 ^ 53 * unit) then nearest unit n else further

-- `float64(n)`, for n below 2 ^ 64: eleven doublings reach 2 ^ 64.
unfoldable pub float64 : ℕ → ℕ
unfolding rounded
float64 n = if ltb n (2 ^ 53) then n else rounded 10 2 n

-- `int(f)` rounds towards zero; the test `float64(int(f)) < f` can hold of a positive size only.
unfoldable pub calculate_chunks : ℤ → ℤ
unfolding float64
calculate_chunks (pos size) =
    let dividend = float64 size in
    let whole = dividend / frontend_chunk_size in
    if ltb (whole * frontend_chunk_size) dividend
    then pos (float64 (dividend + frontend_chunk_size) / frontend_chunk_size)
    else pos whole
calculate_chunks (negsuc n) = neg (float64 (suc n) / frontend_chunk_size)

pub float64-exact : (n : ℕ) → ltb n (2 ^ 53) ≡ true → float64 n ≡ n
unfolding float64
float64-exact n h = rw h refl

part-least :
    (size m : ℕ)
    → ltb (size / frontend_chunk_size * frontend_chunk_size) size ≡ true
    → (size ≤ m * frontend_chunk_size) ↔ ((size + frontend_chunk_size) / frontend_chunk_size ≤ m)
part-least size m part = ((λ h. ground arith), (λ h. ground arith))

whole-least :
    (size m : ℕ)
    → ltb (size / frontend_chunk_size * frontend_chunk_size) size ≡ false
    → (size ≤ m * frontend_chunk_size) ↔ (size / frontend_chunk_size ≤ m)
whole-least size m whole = ((λ h. ground arith), (λ h. ground arith))

-- For a size that is not negative, and with the size of one more chunk below 2 ^ 53, the count k is
-- the least number of chunks that hold the file: a number of chunks m is enough exactly when k is at
-- most m.
pub calculate_chunks-least :
    (size m : ℕ)
    → ltb (size + frontend_chunk_size) (2 ^ 53) ≡ true
    → (k : ℕ) × (calculate_chunks (pos size) ≡ pos k) × ((size ≤ m * frontend_chunk_size) ↔ (k ≤ m))
unfolding calculate_chunks
calculate_chunks-least size m small =
    let exact = float64-exact size (ground arith) in
    let next = float64-exact (size + frontend_chunk_size) small in
    elim (Bool-cases (ltb (size / frontend_chunk_size * frontend_chunk_size) size)) [
      | inl part ↦ (
        (size + frontend_chunk_size) / frontend_chunk_size,
        rw (exact, part, next) refl,
        part-least size m part,
      )
      | inr whole ↦ (size / frontend_chunk_size, rw (exact, whole) refl, whole-least size m whole)
    ]
