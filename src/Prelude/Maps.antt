-- ===== src/Prelude/Maps.antt =====
-- Go maps with string keys, as association lists: `m[k] = v` replaces or adds.
use mathlib.Core.Path.{◌≡◌, refl}
use mathlib.Core.Bool.{Bool}
use mathlib.Core.Option.{Option, none, some}
use mathlib.Core.List.{List, [], ◌∷◌}
use native.Mathlib.Omega.{arith}
use arbokcore.Prelude.Tests.{if◌then◌else◌, is_some, Bool-cases}
use mathlib.Core.Logic.{inl, inr}
use arbokcore.Prelude.Bytes.{Text, ◌==◌, eq_iff}

abbrev pub Dict {ℓ} : Type ℓ → Type ℓ
Dict V = List (Text × V)

module _ {ℓ} {V : Type ℓ} where
  unfoldable pub lookup : Text → Dict V → Option V
  lookup key [] = none
  lookup key (entry ∷ rest) =
      let found = lookup key rest in if entry.0 == key then some entry.1 else found

  unfoldable pub insert : Text → V → Dict V → Dict V
  insert key val [] = (key, val) ∷ []
  insert key val (entry ∷ rest) =
      let deeper = insert key val rest in
      if entry.0 == key then (key, val) ∷ rest else entry ∷ deeper

  pub lookup-cons :
      (key other : Text) (val : V) (dict : Dict V)
      → lookup other ((key, val) ∷ dict) ≡ (if key == other then some val else lookup other dict)
  unfolding lookup
  lookup-cons key other val dict = refl

  -- After `m[key] = val` the key reads as the value, and every other key as before.
  pub lookup-insert :
      (key other : Text) (val : V) (dict : Dict V)
      → lookup other (insert key val dict) ≡ (if key == other then some val else lookup other dict)
  unfolding lookup insert
  lookup-insert key other val [] = refl
  lookup-insert key other val ((k, v) ∷ rest) = elim (Bool-cases (k == key)) [
    | inl here ↦ rw (here, (eq_iff k key).0 here) (ground arith)
    | inr there ↦ rw (there) (
        ground
          (arith, lookup-insert key other val rest, eq_iff k other, eq_iff key other, eq_iff k key))
  ]

-- The keys of a Go map are distinct.
module _ {ℓ} {V : Type ℓ} where
  abbrev pub DistinctKeys : Dict V → Type ℓ
  DistinctKeys [] = Unit
  DistinctKeys ((k, v) ∷ m) = (lookup k m ≡ none) × DistinctKeys m

  pub insert-DistinctKeys :
      (k : Text) (v : V) (m : Dict V) → DistinctKeys m → DistinctKeys (insert k v m)
  unfolding lookup insert
  insert-DistinctKeys k v [] h = (refl, tt)
  insert-DistinctKeys k v ((j, w) ∷ m) h =
      ground (arith, eq_iff j k, eq_iff k j, insert-DistinctKeys k v m h.1, lookup-insert k j v m)

  -- `if _, ok := m[k]; ok { … }`
  abbrev pub contains : Text → Dict V → Bool
  contains k m = is_some (lookup k m)

  abbrev pub or_else : Option V → Option V → Option V
  or_else (some a) b = some a
  or_else none b = b
