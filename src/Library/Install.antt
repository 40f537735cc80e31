-- ===== src/Library/Install.antt =====
-- install and linkCanonical of backend/internal/library/place.go. `Faults` says which calls of Place
-- fail for a reason outside the model: a full disk, a missing permission, a directory in the way.
pub mod Landed
use homesink.Base.{
  ℕ, Bool, true, false, ◌||◌, [], ◌∷◌, ◌++◌, Option, none, some, Str, codes, ◌==◌, if◌then◌else◌,
}
use homesink.Core.Types.{Blob}
use homesink.Store.{Database, Result, ok, err, StoreError, is_not_found}
use homesink.Store.Blobs.{blob_by_hash}
use homesink.Library.Paths.{AbsPath, safe_abs}
use homesink.Library.Files.{Files, stat, remove_file, rename, link}

-- What errors.Is tells apart. `io` is an error of package os or of the random source.
pub data PlaceError : Type 0 where
  invalid_hash no_source collision unsafe_path io : PlaceError
  store : StoreError → PlaceError

pub data Placed {ℓ} (A : Type ℓ) : Type ℓ where
  done : A → Placed A
  fail : PlaceError → Placed A

-- Which calls fail. A failing `stat` is one that finds a file and cannot read it.
pub record Faults : Type 0 where
  pub first_item : Bool
  pub second_item : Bool
  pub blob : Bool
  pub mkdir : Bool
  pub stat_staged : Bool
  pub publish : Bool
  pub stat_source : Bool
  pub stat_target : Bool
  pub random_link : Bool
  pub mkdir_staging : Bool
  pub link : Bool
  pub publish_link : Bool
  pub remove : Bool
  pub random_id : Bool

abbrev pub staged_suffix : Str
staged_suffix = codes ".part"

abbrev pub link_tmp_prefix : Str
link_tmp_prefix = codes ".link-"

-- What the Placer holds, and what one call of Place draws: the time, the identifier, and the suffix
-- of the temporary link.
pub record Placer : Type 0 where
  pub root : AbsPath
  pub staging : AbsPath
  pub now : ℕ
  pub item_id : Str
  pub link_suffix : Str

abbrev pub staged_path : Placer → Str → AbsPath
staged_path p hash = p.staging ++ (hash ++ staged_suffix) ∷ []

abbrev pub link_path : Placer → AbsPath
link_path p = p.staging ++ (link_tmp_prefix ++ p.link_suffix) ∷ []

-- What follows os.Rename of the temporary link: on failure it is removed, if it can be.
abbrev pub drop_link : Bool → Placer → Files → Files
drop_link true p fs = fs
drop_link false p fs = remove_file (link_path p) fs

unfoldable pub publish_link : Bool → Placer → Files → Option Files → Placed (Unit {0}) × Files
unfolding remove_file
publish_link fault p fs none = (fail io, drop_link fault p fs)
publish_link fault p fs (some fs') = (done tt, fs')

unfoldable pub after_link :
    Faults → Placer → AbsPath → Files → Option Files → Placed (Unit {0}) × Files
unfolding publish_link rename
after_link faults p abs fs none = (fail io, fs)
after_link faults p abs fs (some linked) =
    publish_link faults.remove p linked (rename faults.publish_link (link_path p) abs linked)

-- The hard link under a temporary name, renamed into place.
unfoldable pub link_into_place :
    Faults → Placer → AbsPath → AbsPath → Files → Placed (Unit {0}) × Files
unfolding after_link link
link_into_place faults p src abs fs =
    if faults.random_link || faults.mkdir_staging
    then (fail io, fs)
    else after_link faults p abs fs (link faults.link src (link_path p) fs)

-- os.SameFile, where the target can be read.
abbrev pub same_file : Bool → ℕ → Option ℕ → Bool
same_file true i target = false
same_file false i none = false
same_file false i (some j) = i == j

unfoldable pub after_source :
    Faults → Placer → AbsPath → AbsPath → Files → Option ℕ → Placed (Unit {0}) × Files
unfolding stat link_into_place
after_source faults p src abs fs none = (fail no_source, fs)
after_source faults p src abs fs (some i) =
    if faults.stat_source
    then (fail no_source, fs)
    else if same_file faults.stat_target i (stat abs fs)
    then (done tt, fs)
    else link_into_place faults p src abs fs

abbrev pub after_src :
    Faults → Placer → AbsPath → Files → Option AbsPath → Placed (Unit {0}) × Files
after_src faults p abs fs none = (fail unsafe_path, fs)
after_src faults p abs fs (some src) = after_source faults p src abs fs (stat src fs)

unfoldable pub link_blob :
    Faults → Placer → AbsPath → Files → Result Blob → Placed (Unit {0}) × Files
unfolding safe_abs after_source stat
link_blob faults p abs fs (err e) = (fail (if is_not_found e then no_source else store e), fs)
link_blob faults p abs fs (ok b) = after_src faults p abs fs (safe_abs p.root b.rel_path)

unfoldable pub link_canonical :
    Faults → Placer → Str → AbsPath → Database → Files → Placed (Unit {0}) × Files
unfolding link_blob blob_by_hash
link_canonical faults p hash abs db fs =
    link_blob faults p abs fs (blob_by_hash faults.blob hash db)

-- os.Rename of the staged upload.
unfoldable pub publish : Files → Option Files → Placed (Unit {0}) × Files
publish fs none = (fail io, fs)
publish fs (some fs') = (done tt, fs')

abbrev pub after_stat :
    Faults → Placer → Str → AbsPath → Database → Files → Option ℕ → Placed (Unit {0}) × Files
after_stat faults p hash abs db fs (some i) =
    publish fs (rename faults.publish (staged_path p hash) abs fs)
after_stat faults p hash abs db fs none = link_canonical faults p hash abs db fs

unfoldable pub install :
    Faults → Placer → Str → AbsPath → Database → Files → Placed (Unit {0}) × Files
unfolding publish link_canonical rename stat
install faults p hash abs db fs =
    if faults.mkdir || faults.stat_staged
    then (fail io, fs)
    else after_stat faults p hash abs db fs (stat (staged_path p hash) fs)
