-- ===== src/Store/Items.antt =====
-- backend/internal/store/items.go: the items table, with its constraints.
pub mod Consistent
use homesink.Base.{
  ℕ, ◌+◌, Bool, true, not, ◌&&◌, List, [], ◌∷◌, ◌++◌, map, keep, Option, none, some, Str, str_eq,
  leb, if◌then◌else◌, select, delete,
}
use homesink.Base.Sort.{sort}
use homesink.Core.Types.{Item}
use homesink.Store.{
  Database, BlobRow, ItemRow, Result, ok, err, not_found, already_exists, failure, with_tx,
  with_read, null_string, scan_string,
}
use homesink.Store.Devices.{str_lt, has_id}
use homesink.Store.Stats.{key_of, holds, size_of, add_to_album_stats_tx, remove_from_album_stats_tx}

-- The row that InsertItem writes.
unfoldable pub item_row : Item → ItemRow
item_row it = record {
  item_id = it.item_id;
  hash = it.hash;
  album = it.album;
  year = it.year;
  month = it.month;
  filename = it.filename;
  rel_path = it.rel_path;
  captured_at_ms = it.captured_at_ms;
  captured_offset_min = it.captured_offset_min;
  device_id = null_string it.device_id;
  created_at = it.created_at;
}

unfoldable pub scan_item : ItemRow → Item
scan_item r = record {
  item_id = r.item_id;
  hash = r.hash;
  album = r.album;
  year = r.year;
  month = r.month;
  filename = r.filename;
  rel_path = r.rel_path;
  captured_at_ms = r.captured_at_ms;
  captured_offset_min = r.captured_offset_min;
  device_id = scan_string r.device_id;
  created_at = r.created_at;
}

abbrev pub is_item : Str → ItemRow → Bool
is_item id r = str_eq r.item_id id

abbrev pub at_path : Str → ItemRow → Bool
at_path path r = str_eq r.rel_path path

abbrev pub of_blob : Str → ItemRow → Bool
of_blob h r = str_eq r.hash h

-- The constraints of the table: CHECK, then UNIQUE, then the foreign key to devices.
abbrev pub known_device : Option Str → Database → Bool
known_device none db = true
known_device (some id) db = holds (select (has_id id) db.devices)

unfoldable pub insert_row : ItemRow → Database → Result Database
insert_row r db =
    if not (leb 1 r.month && leb r.month 12)
    then err failure
    else if holds (select (is_item r.item_id) db.items)
    then err already_exists
    else if holds (select (at_path r.rel_path) db.items)
    then err already_exists
    else if not (known_device r.device_id db)
    then err failure
    else ok (record db { items = db.items ++ r ∷ [] })

-- What follows the INSERT.
unfoldable pub after_insert : ItemRow → ℕ → Result Database → Result (Unit {0} × Database)
after_insert r size (err e) = err e
after_insert r size (ok db) = ok (tt, add_to_album_stats_tx (key_of r) size r.captured_at_ms db)

-- What follows the look-up of the blob's size.
unfoldable pub after_blob : Item → Database → Option ℕ → Result (Unit {0} × Database)
after_blob it db none = err not_found
after_blob it db (some size) = after_insert (item_row it) size (insert_row (item_row it) db)

unfoldable pub insert_item_tx : Item → Database → Result (Unit {0} × Database)
insert_item_tx it db = after_blob it db (size_of db.blobs it.hash)

unfoldable pub insert_item : Bool → Item → Database → Result (Unit {0}) × Database
insert_item fault it = with_tx fault (insert_item_tx it)

unfoldable pub found_item : Option ItemRow → Result Item
found_item none = err not_found
found_item (some r) = ok (scan_item r)

unfoldable pub item_by_path : Bool → Str → Database → Result Item
item_by_path fault path = with_read fault (λ db. found_item (select (at_path path) db.items))

unfoldable pub item_by_id : Bool → Str → Database → Result Item
item_by_id fault id = with_read fault (λ db. found_item (select (is_item id) db.items))

abbrev item_before : ItemRow → ItemRow → Bool
item_before a b = str_lt a.item_id b.item_id

unfoldable pub items_by_hash : Bool → Str → Database → Result (List Item)
items_by_hash fault h =
    with_read fault (λ db. ok (map scan_item (sort item_before (keep (of_blob h) db.items))))

-- The row of the item joined with its blob's size, and what follows that query.
abbrev pub with_size : ItemRow → Option ℕ → Option (ItemRow × ℕ)
with_size r none = none
with_size r (some size) = some (r, size)

abbrev pub join : List BlobRow → Option ItemRow → Option (ItemRow × ℕ)
join blobs none = none
join blobs (some r) = with_size r (size_of blobs r.hash)

unfoldable pub after_join : Str → Database → Option (ItemRow × ℕ) → Result (Unit {0} × Database)
after_join id db none = err not_found
after_join id db (some (r, size)) = ok (
  tt,
  remove_from_album_stats_tx (key_of r) size (record db { items = delete (is_item id) db.items }),
)

unfoldable pub delete_item_tx : Str → Database → Result (Unit {0} × Database)
delete_item_tx id db = after_join id db (join db.blobs (select (is_item id) db.items))

unfoldable pub delete_item : Bool → Str → Database → Result (Unit {0}) × Database
delete_item fault id = with_tx fault (delete_item_tx id)
