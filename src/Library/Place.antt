-- ===== src/Library/Place.antt =====
-- Place and resolveCollision of backend/internal/library/place.go.
pub mod Outcome
pub mod Again
pub mod Recorded
pub mod Suffix
pub mod Success
use homesink.Base.{
  ℕ, Bool, true, false, ◌&&◌, ◌||◌, [], Option, none, some, Str, str_eq, all, bytes, length, leb,
  ◌==◌, if◌then◌else◌,
}
use homesink.Core.Types.{Item, Placement}
use homesink.Store.{Database, Result, ok, err, is_not_found}
use homesink.Store.Items.{item_by_path}
use homesink.Library.Clusters.{Segmenter}
use homesink.Library.Paths.{AbsPath, Resolved, resolve, suffixed_filename, join_rel, safe_abs}
use homesink.Library.Files.{Files}
use homesink.Library.Install.{
  Faults, Placer, invalid_hash, collision, unsafe_path, io, store, Placed, done, fail, install,
}

-- validHash.
abbrev pub is_hex : ℕ → Bool
is_hex c = (leb b'0' c && leb c b'9') || (leb b'a' c && leb c b'f')

unfoldable pub valid_hash : Str → Bool
unfolding bytes
valid_hash s = if length (bytes s) == 64 then all is_hex (bytes s) else false

-- itemAt.
unfoldable pub item_found : Result Item → Placed (Option Item)
item_found (ok it) = done (some it)
item_found (err e) = if is_not_found e then done none else fail (store e)

unfoldable pub item_at : Bool → Str → Database → Placed (Option Item)
unfolding item_by_path item_found
item_at fault path db = item_found (item_by_path fault path db)

-- resolveCollision: the second look-up, and then the whole.
unfoldable pub after_second :
    Str → Resolved → Placed (Option Item) → Placed (Resolved × Option Item)
after_second hash r (fail e) = fail e
after_second hash r (done none) = done (r, none)
after_second hash r (done (some it)) =
    if str_eq it.hash hash then done (r, some it) else fail collision

abbrev pub with_name : Str → Resolved → Resolved
with_name filename r = record r {
  filename = filename;
  rel_path = join_rel r.album r.year r.month filename;
}

unfoldable pub after_first :
    Segmenter
    → Bool
    → Str
    → Database
    → Resolved
    → Placed (Option Item)
    → Placed (Resolved × Option Item)
unfolding after_second item_at suffixed_filename
after_first extra fault hash db r (fail e) = fail e
after_first extra fault hash db r (done none) = done (r, none)
after_first extra fault hash db r (done (some it)) =
    let r' = with_name (suffixed_filename extra r.filename hash) r in
    if str_eq it.hash hash
    then done (r, some it)
    else after_second hash r' (item_at fault r'.rel_path db)

unfoldable pub resolve_collision :
    (Str → Str) → Segmenter → Faults → Str → Placement → Database → Placed (Resolved × Option Item)
unfolding resolve after_first item_at
resolve_collision nfc extra faults hash pl db =
    let r = resolve nfc extra pl in
    after_first extra faults.second_item hash db r (item_at faults.first_item r.rel_path db)

-- The item that Place returns for a new placement.
abbrev pub placed_item : Placer → Str → Placement → Resolved → Item
placed_item p hash pl r = record {
  item_id = p.item_id;
  hash = hash;
  album = r.album;
  year = r.year;
  month = r.month;
  filename = r.filename;
  rel_path = r.rel_path;
  captured_at_ms = pl.captured_at_ms;
  captured_offset_min = pl.captured_offset_min;
  device_id = [];
  created_at = p.now;
}

unfoldable pub after_install : Bool → Item → Placed (Unit {0}) × Files → Placed Item × Files
after_install fault it (fail e, fs) = (fail e, fs)
after_install true it (done _, fs) = (fail io, fs)
after_install false it (done _, fs) = (done it, fs)

abbrev pub after_abs :
    Faults → Placer → Str → Item → Database → Files → Option AbsPath → Placed Item × Files
after_abs faults p hash it db fs none = (fail unsafe_path, fs)
after_abs faults p hash it db fs (some abs) =
    after_install faults.random_id it (install faults p hash abs db fs)

unfoldable pub after_resolve :
    Faults
    → Placer
    → Str
    → Placement
    → Database
    → Files
    → Placed (Resolved × Option Item)
    → Placed Item × Files
unfolding after_install install safe_abs
after_resolve faults p hash pl db fs (fail e) = (fail e, fs)
after_resolve faults p hash pl db fs (done (r, some it)) = (done it, fs)
after_resolve faults p hash pl db fs (done (r, none)) =
    after_abs faults p hash (placed_item p hash pl r) db fs (safe_abs p.root r.rel_path)

unfoldable pub place :
    (Str → Str)
    → Segmenter
    → Faults
    → Placer
    → Str
    → Placement
    → Database
    → Files
    → Placed Item × Files
unfolding valid_hash resolve_collision after_resolve
place nfc extra faults p hash pl db fs =
    if valid_hash hash
    then after_resolve faults p hash pl db fs (resolve_collision nfc extra faults hash pl db)
    else (fail invalid_hash, fs)
