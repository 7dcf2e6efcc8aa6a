-- ===== src/Supervisors/Merge/Validity.antt =====
-- What `Validate` decides, and what it says of a file that `ReconstructChunks` has filled.
use arbokcore.Prelude.{
  ℕ, Text, ◌==◌, eq_iff, Option, none, some, [], ◌∷◌, Dict, lookup, insert, lookup-insert,
  lookup-cons, DistinctKeys, or_else, is_some, Bool, true, ◌≡◌, ◌↔◌, refl, ap, ◌∙◌, arith, inl, inr,
  Option-cases,
}
use arbokcore.Prelude.Int.{ℤ, eqb_ℤ_iff}
use arbokcore.Prelude.Decimal.{show_ℤ, show_ℤ_injective, show_ℤ-cons}
use arbokcore.Files.{FilesWithChunks, FileInfoResponse}
use arbokcore.Supervisors.Merge.{prev_chain, or_empty, entry_at, follows_chain, validate}

-- Every chunk has a next id.
abbrev pub Linked : Dict FilesWithChunks → Type 0
Linked [] = Unit {0}
Linked ((id, chunk) ∷ chunks) = (is_some chunk.next_chunk_id ≡ true) × Linked chunks

-- The next id stored under a key.
abbrev pub next_at : Text → Dict FilesWithChunks → Option ℤ
next_at k chunks = elim (lookup k chunks) [ none ↦ none | some chunk ↦ chunk.next_chunk_id ]

-- Every chunk has the next id that `prev` has under the same key.
abbrev pub Follows : Dict FilesWithChunks → Dict FilesWithChunks → Type 0
Follows prev [] = Unit {0}
Follows prev ((id, chunk) ∷ chunks) =
    (is_some chunk.next_chunk_id ≡ true)
    × (next_at id prev ≡ chunk.next_chunk_id)
    × Follows prev chunks

pub record Consistent (reconstructed prev : FileInfoResponse) : Type 0 where
  pub same_count : prev.n_chunks ≡ reconstructed.n_chunks
  pub prev_linked : Linked prev.chunks
  pub follows : Follows prev.chunks reconstructed.chunks

abbrev show? : Option ℤ → Option Text
show? none = none
show? (some a) = some (show_ℤ a)

prev_chain-Linked :
    (chunks : Dict FilesWithChunks) (acc chain : Dict Text)
    → prev_chain chunks acc ≡ some chain
    → Linked chunks
unfolding prev_chain
prev_chain-Linked [] acc chain h = tt
prev_chain-Linked ((id, chunk) ∷ chunks) acc chain h = elim (Option-cases chunk.next_chunk_id) [
  | inl last ↦ ground arith
  | inr (next, e) ↦
      (rw e, prev_chain-Linked chunks (insert id (show_ℤ next) acc) chain (ground arith))
]

Linked-prev_chain :
    (chunks : Dict FilesWithChunks) (acc : Dict Text)
    → DistinctKeys chunks
    → Linked chunks
    → (chain : Dict Text) × (prev_chain chunks acc ≡ some chain)
      × ((k : Text) → lookup k chain ≡ or_else (show? (next_at k chunks)) (lookup k acc))
unfolding prev_chain
Linked-prev_chain [] acc d l = (acc, refl, λ k. unfold lookup in refl)
Linked-prev_chain ((id, chunk) ∷ chunks) acc d l = elim (Option-cases chunk.next_chunk_id) [
  | inl last ↦ absurd (ground arith)
  | inr (next, e) ↦
      let (chain, f, g) = Linked-prev_chain chunks (insert id (show_ℤ next) acc) d.1 l.1 in
      (
        chain,
        rw e f,
        λ k. ground (
          arith,
          g k,
          eq_iff id k,
          lookup-insert id k (show_ℤ next) acc,
          lookup-cons id k chunk chunks,
          d.0,
        ),
      )
]

-- The comparison of two printed next ids is the comparison of the ids.
entry_at-eq_iff :
    (o : Option ℤ) (next : ℤ) (k : Text) (chain : Dict Text)
    → lookup k chain ≡ show? o
    → (entry_at k chain == show_ℤ next ≡ true) ↔ (o ≡ some next)
entry_at-eq_iff none next k chain h =
    let (c, s, e) = show_ℤ-cons next in
    rw (h, or_empty, e)
      ((λ q. absurd (nil-ne-cons (eq_iff [] (c ∷ s)).0 q)), (λ q. absurd (none-ne-some q)))
  where
    nil-ne-cons : {c : ℕ} {s : Text} {b : Bool} → (b ≡ true → [] ≡ c ∷ s) → b ≡ true → ⊥
    nil-ne-cons f q = let e = f q in cc e

    none-ne-some : {a : ℤ} → none ≡ some a → ⊥
    none-ne-some q = cc
entry_at-eq_iff (some m) next k chain h =
    rw (h, or_empty)
      (
        (λ q. ap some (show_ℤ_injective m next ((eq_iff (show_ℤ m) (show_ℤ next)).0 q))),
        (λ q. (eq_iff (show_ℤ m) (show_ℤ next)).1 (ground (arith, q))),
      )

follows_chain_iff :
    (prev chunks : Dict FilesWithChunks) (chain : Dict Text)
    → ((k : Text) → lookup k chain ≡ show? (next_at k prev))
    → (follows_chain chain chunks ≡ true) ↔ Follows prev chunks
unfolding follows_chain
follows_chain_iff prev [] chain h = ((λ q. tt), (λ q. refl))
follows_chain_iff prev ((id, chunk) ∷ chunks) chain h = elim (Option-cases chunk.next_chunk_id) [
  | inl last ↦ ((λ q. absurd (ground arith)), (λ q. absurd (ground arith)))
  | inr (next, e) ↦
      let same = entry_at-eq_iff (next_at id prev) next id chain (h id) in
      let rest = follows_chain_iff prev chunks chain h in
      ((λ q. (ground arith, ground arith, ground arith)), (λ q. ground arith))
]

-- For a previous file whose keys are distinct, `Validate` accepts a file exactly when both have the
-- same number of chunks, each chunk of the previous file has a next id, and each chunk of the file
-- has the next id that the previous file has under the same key.
pub validate_iff :
    (reconstructed prev : FileInfoResponse)
    → DistinctKeys prev.chunks
    → (validate reconstructed prev ≡ true) ↔ Consistent reconstructed prev
unfolding validate
validate_iff reconstructed prev d = (accepted, rejected)
  where
    accepted : validate reconstructed prev ≡ true → Consistent reconstructed prev
    accepted q = elim (Option-cases (prev_chain prev.chunks [])) [
      | inl e ↦ absurd (ground arith)
      | inr (chain, e) ↦
          let l = prev_chain-Linked prev.chunks [] chain e in
          let (chain', e', g) = Linked-prev_chain prev.chunks [] d l in
          record {
            same_count = ground (arith, eqb_ℤ_iff prev.n_chunks reconstructed.n_chunks);
            prev_linked = l;
            follows =
                (follows_chain_iff prev.chunks reconstructed.chunks chain'
                    (λ k. g k ∙ unfold lookup in ground arith)).0
                  (ground (arith, e, e'));
          }
    ]

    rejected : Consistent reconstructed prev → validate reconstructed prev ≡ true
    rejected c =
        let (chain, e, g) = Linked-prev_chain prev.chunks [] d c.prev_linked in
        let f =
          (follows_chain_iff prev.chunks reconstructed.chunks chain
              (λ k. g k ∙ unfold lookup in ground arith)).1
            c.follows in
        ground (arith, eqb_ℤ_iff prev.n_chunks reconstructed.n_chunks, c.same_count)
