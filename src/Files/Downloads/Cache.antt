-- ===== src/Files/Downloads/Cache.antt =====
-- The cache of downloads, as long as it agrees with the disk.
use arbokcore.Prelude.{
  Dict, Text, ◌==◌, eq_iff, none, some, Option-cases, Bool-cases, List, [], ◌∷◌, ◌++◌, lookup,
  insert, lookup-insert, ◌≡◌, inl, inr, refl, ap, sym, ◌∙◌, subst, arith,
}
use arbokcore.Prelude.Int.{ℤ, pos, negsuc}
use arbokcore.Files.Downloads.{
  hit, fetch_cached, err_no_file, read_file, get_cached, set_cached, fetch, download_all, download,
  read_all, read_files,
}
use arbokcore.World.{World, others, Outcome, ok, err, first, bind-ok, bind-err}

-- Every key of the cache has the contents of the file.
abbrev pub Coherent : World → Type 0
Coherent w =
    (path content : Text) → lookup path w.cache ≡ some content → lookup path w.disk ≡ some content

pub Coherent-at : (w v : World) → v.cache ≡ w.cache → v.disk ≡ w.disk → Coherent w → Coherent v
Coherent-at w v c d h path content k =
    ap (lookup path) d ∙ h path content (sym (ap (lookup path) c) ∙ k)

Coherent-insert :
    (path content : Text) (w v : World)
    → v.cache ≡ insert path content w.cache
    → v.disk ≡ w.disk
    → lookup path w.disk ≡ some content
    → Coherent w
    → Coherent v
Coherent-insert path content w v c d there h key val k = elim (Bool-cases (path == key)) [
  | inl same ↦ ground (
    arith,
    k,
    same,
    c,
    d,
    there,
    (eq_iff path key).0 same,
    lookup-insert path key content w.cache,
  )
  | inr other ↦ ground (arith, d, h key val, k, other, c, lookup-insert path key content w.cache)
]

-- After a call that has read the file at a path.
pub record Fetched (content : Text) (disk : Dict Text) (run : Outcome Text × World) : Type 0 where
  pub returns : run.0 ≡ ok content
  pub answers : run.1.answers ≡ []
  pub same_disk : run.1.disk ≡ disk
  pub coherent : Coherent run.1

fetch-miss :
    (path content : Text) (w : World)
    → w.answers ≡ []
    → Coherent w
    → lookup path w.disk ≡ some content
    → Fetched content w.disk (fetch path none w)
unfolding fetch read_file set_cached
fetch-miss path content w a h there = elim (Option-cases (first w.cache_answers)) [
  | inr (e, refused) ↦ record {
    returns = ground (arith, a, there, refused);
    answers = ground (arith, a, there, refused);
    same_disk = ground (arith, a, there, refused);
    coherent =
        Coherent-at w (fetch path none w).1 (ground (arith, a, there, refused))
          (ground (arith, a, there, refused)) h;
  }
  | inl answered ↦ record {
    returns = ground (arith, a, there, answered);
    answers = ground (arith, a, there, answered);
    same_disk = ground (arith, a, there, answered);
    coherent =
        Coherent-insert path content w (fetch path none w).1 (ground (arith, a, there, answered))
          (ground (arith, a, there, answered)) there h;
  }
]

fetch_cached-Fetched :
    (path content : Text) (w : World)
    → w.answers ≡ []
    → Coherent w
    → lookup path w.disk ≡ some content
    → Fetched content w.disk (fetch_cached path w)
unfolding get_cached fetch
fetch_cached-Fetched path content w a h there =
    elim (Option-cases (hit (first w.cache_answers) (lookup path w.cache))) [
      | inl missed ↦
          rw missed (
            fetch-miss path content (record w { cache_answers = others w.cache_answers }) a h there)
      | inr (v, found) ↦ rw found (record {
        returns = ground (arith, found, there, h path v);
        answers = a;
        same_disk = refl;
        coherent = h;
      })
    ]

-- After a call that found no file.
record Missed (disk : Dict Text) (run : Outcome Text × World) : Type 0 where
  fails : run.0 ≡ err err_no_file
  answers : run.1.answers ≡ []
  same_disk : run.1.disk ≡ disk
  coherent : Coherent run.1

fetch-gone :
    (path : Text) (w : World)
    → w.answers ≡ []
    → Coherent w
    → lookup path w.disk ≡ none
    → Missed w.disk (fetch path none w)
unfolding fetch read_file
fetch-gone path w a h gone = record {
  fails = ground (arith, a, gone);
  answers = ground (arith, a, gone);
  same_disk = ground (arith, a, gone);
  coherent =
      Coherent-at w (fetch path none w).1 (ground (arith, a, gone)) (ground (arith, a, gone)) h;
}

fetch_cached-Missed :
    (path : Text) (w : World)
    → w.answers ≡ []
    → Coherent w
    → lookup path w.disk ≡ none
    → Missed w.disk (fetch_cached path w)
unfolding get_cached
fetch_cached-Missed path w a h gone =
    elim (Option-cases (hit (first w.cache_answers) (lookup path w.cache))) [
      | inr (v, found) ↦ absurd (ground (arith, gone, found, h path v))
      | inl missed ↦
          rw missed (fetch-gone path (record w { cache_answers = others w.cache_answers }) a h gone)
    ]

read_file-there :
    (path content : Text) (w : World)
    → w.answers ≡ []
    → lookup path w.disk ≡ some content
    → ((read_file path w).0 ≡ ok content)
      × ((read_file path w).1.answers ≡ [])
      × ((read_file path w).1.disk ≡ w.disk)
unfolding read_file
read_file-there path content w a h =
    (ground (arith, a, h), ground (arith, a, h), ground (arith, a, h))

read_file-gone :
    (path : Text) (w : World)
    → w.answers ≡ []
    → lookup path w.disk ≡ none
    → ((read_file path w).0 ≡ err err_no_file) × ((read_file path w).1.answers ≡ [])
unfolding read_file
read_file-gone path w a h = (ground (arith, a, h), ground (arith, a, h))

-- The same outcome, the same answers left, and a cache that agrees with the same disk afterwards.
pub record Agrees (disk : Dict Text) (plain run : Outcome Text × World) : Type 0 where
  pub outcome : run.0 ≡ plain.0
  pub answers : run.1.answers ≡ plain.1.answers
  pub same_disk : run.1.disk ≡ disk
  pub coherent : Coherent run.1

download_all-Agrees :
    (buffer : Text) (paths : List Text) (w v : World)
    → w.answers ≡ []
    → v.answers ≡ []
    → v.disk ≡ w.disk
    → Coherent w
    → Agrees w.disk (read_all buffer paths v) (download_all buffer paths w)
unfolding download_all read_all
download_all-Agrees buffer [] w v a b d h = record {
  outcome = refl;
  answers = a ∙ sym b;
  same_disk = refl;
  coherent = h;
}
download_all-Agrees buffer (path ∷ paths) w v a b d h = elim (Option-cases (lookup path w.disk)) [
  | inl gone ↦
      (let m = fetch_cached-Missed path w a h gone in
        let gone-read = read_file-gone path v b (ap (lookup path) d ∙ gone) in
        rw
          (
            bind-err (fetch_cached path) (λ content. download_all (buffer ++ content) paths) w
                m.fails,
            bind-err (read_file path) (λ content. read_all (buffer ++ content) paths) v gone-read.0,
          )
          (record {
            outcome = refl;
            answers = m.answers ∙ sym (gone-read.1);
            same_disk = m.same_disk;
            coherent = m.coherent;
          }))
  | inr (content, there) ↦
      (let f = fetch_cached-Fetched path content w a h there in
        let (o, c, e) = read_file-there path content v b (ap (lookup path) d ∙ there) in
        rw
          (
            bind-ok (fetch_cached path) (λ content'. download_all (buffer ++ content') paths) w
                f.returns,
            bind-ok (read_file path) (λ content'. read_all (buffer ++ content') paths) v o,
          )
          (subst
            (λ disk.
              Agrees disk (read_all (buffer ++ content) paths (read_file path v).1)
                (download_all (buffer ++ content) paths (fetch_cached path w).1))
            f.same_disk
            (download_all-Agrees (buffer ++ content) paths (fetch_cached path w).1
              (read_file path v).1 f.answers c (e ∙ d ∙ sym f.same_disk) f.coherent)))
]

-- While the operating system answers every call, and the cache agrees with the disk: whatever Redis
-- answers, `Download` has the outcome of reading the files one after the other, and the cache agrees
-- with the disk afterwards.
pub download-Agrees :
    (size : ℤ) (paths : List Text) (w : World)
    → w.answers ≡ []
    → Coherent w
    → Agrees w.disk (read_files size paths w) (download size paths w)
unfolding download read_files
download-Agrees (pos n) paths w a h = download_all-Agrees [] paths w w a a refl h
download-Agrees (negsuc n) paths w a h = record {
  outcome = refl;
  answers = refl;
  same_disk = refl;
  coherent = h;
}
