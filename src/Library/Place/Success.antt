-- ===== src/Library/Place/Success.antt =====
-- Place of a staged upload at a path that is free, where no call fails.
use homesink.Base.{ℕ, ◌≡◌, ◌≢◌, refl, ◌∙◌, true, false, ◌++◌, none, some, Str, str_eq, codes}
use homesink.Core.Types.{Item, Placement}
use homesink.Store.{Database, with_read, is_not_found}
use homesink.Core.Errors.{is}
use homesink.Store.Items.{item_by_path, found_item}
use homesink.Library.Clusters.{Segmenter}
use homesink.Library.Paths.{AbsPath, resolve, safe_abs, build_rel_path}
use homesink.Library.Paths.Accepted.{components, safe_abs-build_rel_path}
use homesink.Library.Files.{Files, stat, rename, rename_inodes}
use homesink.Library.Files.Stat.{rename-Renamed}
use homesink.Library.Install.{Placer, Placed, done, staged_path, publish, install}
use homesink.Library.Place.{
  item_found, item_at, after_first, resolve_collision, placed_item, after_install, after_resolve,
  valid_hash, place,
}
use homesink.Library.Place.Outcome.{IsFree}
use homesink.Library.Place.Recorded.{no_faults}

-- A returned item, whose file has the inode.
pub record Landed (it : Item) (abs : AbsPath) (i : ℕ) (r : Placed Item × Files) : Type 0 where
  pub returned : r.0 ≡ done it
  pub at_path : stat abs r.1 ≡ some i

module _ (p : Placer) (hash : Str) (abs : AbsPath) (db : Database) (fs : Files) (i : ℕ)
    (staged : stat (staged_path p hash) fs ≡ some i) where
  install_lem :
      install no_faults p hash abs db fs
      ≡ (done tt, rename_inodes (staged_path p hash) abs i (stat abs fs) fs)
  unfolding install publish rename
  install_lem = rw (staged, staged) refl

  rename_lem :
      rename false (staged_path p hash) abs fs
      ≡ some (rename_inodes (staged_path p hash) abs i (stat abs fs) fs)
  unfolding rename
  rename_lem = rw staged refl

  after_install-Landed :
      (it : Item) → Landed it abs i (after_install false it (install no_faults p hash abs db fs))
  unfolding after_install
  after_install-Landed it = rw install_lem (record {
    returned = refl;
    at_path =
        (rename-Renamed false (staged_path p hash) abs fs
          (rename_inodes (staged_path p hash) abs i (stat abs fs) fs) rename_lem).landed
        ∙ staged;
  })

nothing_found : item_found (found_item none) ≡ done none
unfolding item_found found_item is_not_found is str_eq
nothing_found = refl

resolve_free :
    (nfc : Str → Str) (extra : Segmenter) (hash : Str) (pl : Placement) (db : Database)
    → IsFree (resolve nfc extra pl).rel_path db
    → resolve_collision nfc extra no_faults hash pl db ≡ done (resolve nfc extra pl, none)
unfolding resolve_collision after_first item_at item_by_path with_read
resolve_free nfc extra hash pl db free = rw (free, nothing_found) refl

accepted :
    (nfc : Str → Str) (extra : Segmenter) (root : AbsPath) (pl : Placement)
    → (resolve nfc extra pl).filename ≢ codes "."
    → (let r = resolve nfc extra pl in
        safe_abs root r.rel_path ≡ some (root ++ components r.album r.year r.month r.filename))
unfolding build_rel_path
accepted nfc extra root pl d = safe_abs-build_rel_path nfc extra root pl d

-- A staged upload whose resolved path is free is published: Place returns the item of that path, and
-- the file at the root's Album/YYYY/MM/filename is the staged one. It needs a valid hash, no failing
-- call, and a file name that is not the single dot.
pub place-Landed :
    (nfc : Str → Str) (extra : Segmenter) (p : Placer) (hash : Str) (pl : Placement) (db : Database)
    (fs : Files) (i : ℕ)
    → valid_hash hash ≡ true
    → IsFree (resolve nfc extra pl).rel_path db
    → (resolve nfc extra pl).filename ≢ codes "."
    → stat (staged_path p hash) fs ≡ some i
    → (let r = resolve nfc extra pl in
        Landed
          (placed_item p hash pl r)
          (p.root ++ components r.album r.year r.month r.filename)
          i
          (place nfc extra no_faults p hash pl db fs))
unfolding place after_resolve
place-Landed nfc extra p hash pl db fs i v free d staged =
    let r = resolve nfc extra pl in
    rw (v, resolve_free nfc extra hash pl db free, accepted nfc extra p.root pl d)
      (after_install-Landed p hash (p.root ++ components r.album r.year r.month r.filename) db fs i
        staged (placed_item p hash pl r))
