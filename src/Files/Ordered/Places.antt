-- ===== src/Files/Ordered/Places.antt =====
-- Where `ListOrderedFileChunks` puts the url of each chunk.
use arbokcore.Prelude.{
  ℕ, ◌<◌, Text, ◌==◌, eq_iff, Option, none, some, Option-cases, List, [], ◌∷◌, Dict, lookup,
  lookup-cons, DistinctKeys, Bool, true, false, if◌then◌else◌, length, set, get_elem?, length-set,
  get_elem?-set_self, get_elem?-set_ne, ◌≡◌, ◌∙◌, arith, Bool-cases, inl, inr,
}
use arbokcore.Prelude.Int.{ℤ, pos, negsuc}
use arbokcore.Prelude.Decimal.{show_ℤ, show_ℤ_injective}
use arbokcore.Files.{FilesWithChunks}
use arbokcore.Files.Info.{version_str}
use arbokcore.Files.Ordered.{place_at, place, place_all}

-- Each chunk stands under the text of its chunk id.
abbrev pub Keyed : Dict FilesWithChunks → Type 0
Keyed [] = Unit {0}
Keyed ((key, chunk) ∷ chunks) = (key ≡ version_str chunk) × Keyed chunks

abbrev pub url_or : Option Text → Option FilesWithChunks → Option Text
url_or old none = old
url_or old (some chunk) = some chunk.chunk_blob_url

place_at-length :
    (id : ℤ) (url : Text) (urls : List Text) {urls' : List Text}
    → place_at id url urls ≡ some urls'
    → length urls' ≡ length urls
unfolding place_at
place_at-length (pos n) url urls h = ground (arith, length-set urls n url)
place_at-length (negsuc n) url urls h = absurd (ground arith)

pos_eq : {m n : ℕ} → pos m ≡ pos n → m ≡ n
pos_eq h = ground arith

get_elem?-set :
    (urls : List Text) (n i : ℕ) (url : Text)
    → n < length urls
    → get_elem? (set urls n url) i
      ≡ (if show_ℤ (pos n) == show_ℤ (pos i) then some url else get_elem? urls i)
get_elem?-set urls n i url h = elim (Bool-cases (show_ℤ (pos n) == show_ℤ (pos i))) [
  | inl same ↦
      let e =
        pos_eq
          (show_ℤ_injective (pos n) (pos i) ((eq_iff (show_ℤ (pos n)) (show_ℤ (pos i))).0 same)) in
      rw same (rw (← e) (get_elem?-set_self urls n url h))
  | inr other ↦ rw other (
      get_elem?-set_ne urls n i url
        (λ e. differ other ((eq_iff (show_ℤ (pos n)) (show_ℤ (pos i))).1 (rw e))))
]
  where
    differ : {b : Bool} → b ≡ false → b ≡ true → ⊥
    differ p q = cc

place_at-get :
    (id : ℤ) (url : Text) (urls : List Text) {urls' : List Text} (i : ℕ)
    → place_at id url urls ≡ some urls'
    → get_elem? urls' i ≡ (if show_ℤ id == show_ℤ (pos i) then some url else get_elem? urls i)
unfolding place_at
place_at-get (pos n) url urls i h = ground (arith, get_elem?-set urls n i url)
place_at-get (negsuc n) url urls i h = absurd (ground arith)

pub place_all-length :
    (chunks : Dict FilesWithChunks) (urls : List Text) {urls' : List Text}
    → place_all chunks urls ≡ some urls'
    → length urls' ≡ length urls
unfolding place_all
place_all-length [] urls h = ground arith
place_all-length ((key, chunk) ∷ chunks) urls {urls'} h = elim (Option-cases (place chunk urls)) [
  | inl e ↦ absurd (ground arith)
  | inr (next, e) ↦
      place_all-length chunks next {urls' = urls'} (ground arith)
      ∙ place_at-length chunk.chunk_id chunk.chunk_blob_url urls e
]

-- At each index stands the url of the chunk whose key is the index, and what stood there if there
-- is none.
pub place_all-get :
    (chunks : Dict FilesWithChunks) (urls : List Text) {urls' : List Text} (i : ℕ)
    → DistinctKeys chunks
    → Keyed chunks
    → place_all chunks urls ≡ some urls'
    → get_elem? urls' i ≡ url_or (get_elem? urls i) (lookup (show_ℤ (pos i)) chunks)
unfolding place_all
place_all-get [] urls i d k h = unfold lookup in ground arith
place_all-get ((key, chunk) ∷ chunks) urls {urls'} i d k h =
    elim (Option-cases (place chunk urls)) [
      | inl e ↦ absurd (ground arith)
      | inr (next, e) ↦
          place_all-get chunks next {urls' = urls'} i d.1 k.1 (ground arith)
          ∙ ground (
            arith,
            place_at-get chunk.chunk_id chunk.chunk_blob_url urls i e,
            lookup-cons key (show_ℤ (pos i)) chunk chunks,
            eq_iff key (show_ℤ (pos i)),
            k.0,
            d.0,
          )
    ]
