-- ===== src/Library/Install/Landed.antt =====
-- install: which files it changes, and whose bytes stand at the target after it.
use homesink.Base.{
  ℕ, ◌≡◌, ◌≢◌, refl, sym, ap, ◌∙◌, inl, inr, Bool, true, false, ◌||◌, Option, none, some, Str,
  ==_iff, if◌then◌else◌, Bool-cases,
}
use homesink.Core.Types.{Blob}
use homesink.Store.{Database, Result, ok, err, is_not_found, with_read}
use homesink.Store.Blobs.{blob_by_hash}
use homesink.Library.Paths.{AbsPath, safe_abs}
use homesink.Library.Files.{Files, stat, rename, link}
use homesink.Library.Files.Stat.{rename-Renamed, link-Linked, stat-remove_file}
use homesink.Library.Install.{
  Faults, Placer, PlaceError, Placed, done, fail, io, no_source, unsafe_path, store, staged_path,
  link_path, drop_link, publish_link, after_link, link_into_place, same_file, after_source,
  after_src, link_blob, link_canonical, publish, after_stat, install,
}

-- The inode whose bytes a blob is placed from: its staged upload, or its stored file.
pub data Source (p : Placer) (hash : Str) (db : Database) (fs : Files) (i : ℕ) : Type 0 where
  staged : stat (staged_path p hash) fs ≡ some i → Source p hash db fs i
  canonical :
      (b : Blob) (src : AbsPath)
      → blob_by_hash false hash db ≡ ok b
      → safe_abs p.root b.rel_path ≡ some src
      → stat src fs ≡ some i
      → Source p hash db fs i

module _ (p : Placer) (hash : Str) (abs : AbsPath) (db : Database) (fs : Files) where
  -- A result: nothing but the target and the two temporary names may differ, and where it is a
  -- success the target has the bytes of the blob.
  pub record Installed (r : Placed (Unit {0}) × Files) : Type 0 where
    pub others :
        (q : AbsPath) → abs ≢ q → staged_path p hash ≢ q → link_path p ≢ q → stat q r.1 ≡ stat q fs
    pub landed : r.0 ≡ done tt → (i : ℕ) × (stat abs r.1 ≡ some i) × Source p hash db fs i

  failed-Installed : (e : PlaceError) → Installed (fail e, fs)
  failed-Installed e = record { others = λ q a b c. refl; landed = λ h. cc h }

  publish-Installed :
      (fault : Bool) (i : ℕ) (o : Option Files)
      → stat (staged_path p hash) fs ≡ some i
      → rename fault (staged_path p hash) abs fs ≡ o
      → Installed (publish fs o)
  unfolding publish
  publish-Installed fault i none h k = failed-Installed io
  publish-Installed fault i (some fs') h k =
      let m = rename-Renamed fault (staged_path p hash) abs fs fs' k in
      record { others = λ q a b c. m.others q b a; landed = λ d. (i, m.landed ∙ h, staged h) }

  module _ (i : ℕ) (src : AbsPath) (from : Source p hash db fs i)
      (at_src : stat src fs ≡ some i) where
    drop_link-others :
        (fault : Bool) (linked : Files) (q : AbsPath)
        → link_path p ≢ q
        → stat q (drop_link fault p linked) ≡ stat q linked
    drop_link-others true linked q n = refl
    drop_link-others false linked q n = stat-remove_file (link_path p) q linked n

    publish_link-Installed :
        (fault fault' : Bool) (linked : Files) (o : Option Files)
        → stat (link_path p) linked ≡ some i
        → ((q : AbsPath) → link_path p ≢ q → stat q linked ≡ stat q fs)
        → rename fault (link_path p) abs linked ≡ o
        → Installed (publish_link fault' p linked o)
    unfolding publish_link
    publish_link-Installed fault fault' linked none h k m = record {
      others = λ q a b c. drop_link-others fault' linked q c ∙ k q c;
      landed = λ d. cc d;
    }
    publish_link-Installed fault fault' linked (some fs') h k m =
        let n = rename-Renamed fault (link_path p) abs linked fs' m in
        record { others = λ q a b c. n.others q c a ∙ k q c; landed = λ d. (i, n.landed ∙ h, from) }

    after_link-Installed :
        (faults : Faults) (o : Option Files)
        → link faults.link src (link_path p) fs ≡ o
        → Installed (after_link faults p abs fs o)
    unfolding after_link
    after_link-Installed faults none h = failed-Installed io
    after_link-Installed faults (some linked) h =
        let l = link-Linked faults.link src (link_path p) fs linked h in
        publish_link-Installed faults.publish_link faults.remove linked
          (rename faults.publish_link (link_path p) abs linked) (l.landed ∙ at_src) l.others refl

    link_into_place-Installed : (faults : Faults) → Installed (link_into_place faults p src abs fs)
    unfolding link_into_place
    link_into_place-Installed faults =
        elim (Bool-cases (faults.random_link || faults.mkdir_staging)) [
          | inl t ↦ rw t (failed-Installed io)
          | inr t ↦ rw t (after_link-Installed faults (link faults.link src (link_path p) fs) refl)
        ]

    same-Installed :
        (fault : Bool) (o : Option ℕ)
        → stat abs fs ≡ o
        → same_file fault i o ≡ true
        → Installed (done tt, fs)
    same-Installed true o h k = cc k
    same-Installed false none h k = cc k
    same-Installed false (some j) h k = record {
      others = λ q a b c. refl;
      landed = λ d. (i, h ∙ ap some (sym ((==_iff i j).0 k)), from);
    }

    found-Installed : (faults : Faults) → Installed (after_source faults p src abs fs (some i))
    unfolding after_source
    found-Installed faults = elim (Bool-cases faults.stat_source) [
      | inl t ↦ rw t (failed-Installed no_source)
      | inr t ↦ rw t (elim (Bool-cases (same_file faults.stat_target i (stat abs fs))) [
        | inl u ↦ rw u (same-Installed faults.stat_target (stat abs fs) refl u)
        | inr u ↦ rw u (link_into_place-Installed faults)
      ])
    ]

  after_source-Installed :
      (faults : Faults) (b : Blob) (src : AbsPath) (o : Option ℕ)
      → blob_by_hash false hash db ≡ ok b
      → safe_abs p.root b.rel_path ≡ some src
      → stat src fs ≡ o
      → Installed (after_source faults p src abs fs o)
  unfolding after_source
  after_source-Installed faults b src none h k l = failed-Installed no_source
  after_source-Installed faults b src (some i) h k l =
      found-Installed i src (canonical b src h k l) l faults

  after_src-Installed :
      (faults : Faults) (b : Blob) (o : Option AbsPath)
      → blob_by_hash false hash db ≡ ok b
      → safe_abs p.root b.rel_path ≡ o
      → Installed (after_src faults p abs fs o)
  after_src-Installed faults b none h k = failed-Installed unsafe_path
  after_src-Installed faults b (some src) h k =
      after_source-Installed faults b src (stat src fs) h k refl

  link_blob-Installed :
      (faults : Faults) (o : Result Blob)
      → ((b : Blob) → o ≡ ok b → blob_by_hash false hash db ≡ ok b)
      → Installed (link_blob faults p abs fs o)
  unfolding link_blob
  link_blob-Installed faults (err e) h =
      failed-Installed (if is_not_found e then no_source else store e)
  link_blob-Installed faults (ok b) h =
      after_src-Installed faults b (safe_abs p.root b.rel_path) (h b refl) refl

  read-ok :
      (fault : Bool) (b : Blob)
      → blob_by_hash fault hash db ≡ ok b
      → blob_by_hash false hash db ≡ ok b
  unfolding blob_by_hash with_read
  read-ok true b h = cc h
  read-ok false b h = h

  after_stat-Installed :
      (faults : Faults) (o : Option ℕ)
      → stat (staged_path p hash) fs ≡ o
      → Installed (after_stat faults p hash abs db fs o)
  unfolding link_canonical
  after_stat-Installed faults (some i) h =
      publish-Installed faults.publish i (rename faults.publish (staged_path p hash) abs fs) h refl
  after_stat-Installed faults none h =
      link_blob-Installed faults (blob_by_hash faults.blob hash db) (read-ok faults.blob)

  pub install-Installed : (faults : Faults) → Installed (install faults p hash abs db fs)
  unfolding install
  install-Installed faults = elim (Bool-cases (faults.mkdir || faults.stat_staged)) [
    | inl t ↦ rw t (failed-Installed io)
    | inr t ↦ rw t (after_stat-Installed faults (stat (staged_path p hash) fs) refl)
  ]
