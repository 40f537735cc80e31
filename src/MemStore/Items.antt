-- ===== src/MemStore/Items.antt =====
-- The item and album_stats methods of backend/internal/testutil/memstore.go.
use homesink.Base.{
  ℕ, Bool, List, [], ◌∷◌, Option, none, some, Str, str_eq, keep, ltb, if◌then◌else◌,
}
use homesink.Base.Int.{ℤ, pos, plus_ℕ, minus_ℕ, ltb_ℤ, eqb_ℤ}
use homesink.Base.Sort.{sort}
use homesink.Core.Types.{Blob, Item}
use homesink.Store.{Result, ok, err, not_found, already_exists}
use homesink.Store.Devices.{str_lt}
use homesink.MemStore.{MemStore, MemStat, StatKey, stat_key}
use homesink.MemStore.Maps.{text_key, get, set, remove, values}
use homesink.MemStore.Blobs.{found}

abbrev pub key_of : Item → StatKey
key_of it = record { album = it.album; year = it.year; month = it.month }

-- m.stats[key], whose zero value stands for a missing one.
abbrev pub stat_or_zero : Option MemStat → MemStat
stat_or_zero (some st) = st
stat_or_zero none = record {
  album = [];
  year = pos 0;
  month = 0;
  item_count = pos 0;
  size_bytes = pos 0;
  latest_captured_at_ms = pos 0;
}

-- The item counted in, as InsertItem and DeriveAlbumStats do.
unfoldable pub count_in : Item → ℕ → MemStat → MemStat
unfolding plus_ℕ
count_in it size st = record {
  album = it.album;
  year = it.year;
  month = it.month;
  item_count = plus_ℕ st.item_count 1;
  size_bytes = plus_ℕ st.size_bytes size;
  latest_captured_at_ms =
      if ltb_ℤ st.latest_captured_at_ms it.captured_at_ms
      then it.captured_at_ms
      else st.latest_captured_at_ms;
}

abbrev pub count_item : Item → ℕ → List (StatKey × MemStat) → List (StatKey × MemStat)
count_item it size stats =
    set stat_key (key_of it) (count_in it size (stat_or_zero (get stat_key (key_of it) stats)))
      stats

abbrev insert_placed : Item → Blob → MemStore → MemStore
insert_placed it b m = record m {
  items = set text_key it.item_id it m.items;
  items_by_path = set text_key it.rel_path it.item_id m.items_by_path;
  stats = count_item it b.size_bytes m.stats;
}

-- What follows the three look-ups of InsertItem.
abbrev insert_checked :
    Item → MemStore → Option Blob → Option Item → Option Str → Result (Unit {0}) × MemStore
insert_checked it m none old taken = (err not_found, m)
insert_checked it m (some b) (some old) taken = (err already_exists, m)
insert_checked it m (some b) none (some id) = (err already_exists, m)
insert_checked it m (some b) none none = (ok tt, insert_placed it b m)

unfoldable pub insert_item : Item → MemStore → Result (Unit {0}) × MemStore
unfolding get set count_in
insert_item it m =
    insert_checked it m (get text_key it.hash m.blobs) (get text_key it.item_id m.items)
      (get text_key it.rel_path m.items_by_path)

-- it := m.items[id], whose zero value stands for a missing one.
abbrev item_or_zero : Option Item → Item
item_or_zero (some it) = it
item_or_zero none = record {
  item_id = [];
  hash = [];
  album = [];
  year = pos 0;
  month = 0;
  filename = [];
  rel_path = [];
  captured_at_ms = pos 0;
  captured_offset_min = pos 0;
  device_id = [];
  created_at = 0;
}

abbrev by_id : MemStore → Option Str → Result Item
by_id m none = err not_found
by_id m (some id) = ok (item_or_zero (get text_key id m.items))

unfoldable pub item_by_path : Str → MemStore → Result Item
unfolding get
item_by_path path m = by_id m (get text_key path m.items_by_path)

unfoldable pub item_by_id : Str → MemStore → Result Item
unfolding get
item_by_id id m = found (get text_key id m.items)

abbrev item_before : Item → Item → Bool
item_before a b = str_lt a.item_id b.item_id

unfoldable pub items_by_hash : Str → MemStore → Result (List Item)
unfolding sort str_lt
items_by_hash hash m = ok (sort item_before (keep (λ it. str_eq it.hash hash) (values m.items)))

-- m.blobs[hash].SizeBytes.
abbrev size_or_zero : Option Blob → ℕ
size_or_zero none = 0
size_or_zero (some b) = b.size_bytes

abbrev in_album : StatKey → Item → Bool
in_album k it = stat_key.same (key_of it) k

-- The loop that recomputes the newest capture time, from 0.
unfoldable pub latest_of : ℤ → List Item → ℤ
latest_of t [] = t
latest_of t (it ∷ items) =
    latest_of (if ltb_ℤ t it.captured_at_ms then it.captured_at_ms else t) items

abbrev count_out : ℕ → MemStat → MemStat
count_out size st = record st {
  item_count = minus_ℕ st.item_count 1;
  size_bytes = minus_ℕ st.size_bytes size;
}

abbrev put_stat :
    StatKey → MemStat → List Item → List (StatKey × MemStat) → List (StatKey × MemStat)
put_stat k st items stats =
    if ltb_ℤ st.item_count (pos 1)
    then remove stat_key k stats
    else set stat_key k
        (record st { latest_captured_at_ms = latest_of (pos 0) (keep (in_album k) items) }) stats

abbrev without : Item → ℕ → List (Str × Item) → MemStore → MemStore
without it size items m = record m {
  items = items;
  items_by_path = remove text_key it.rel_path m.items_by_path;
  stats =
      put_stat (key_of it) (count_out size (stat_or_zero (get stat_key (key_of it) m.stats)))
        (values items) m.stats;
}

abbrev delete_found : Str → MemStore → Option Item → Result (Unit {0}) × MemStore
delete_found id m none = (err not_found, m)
delete_found id m (some it) =
    (ok tt, without it (size_or_zero (get text_key it.hash m.blobs)) (remove text_key id m.items) m)

unfoldable pub delete_item : Str → MemStore → Result (Unit {0}) × MemStore
unfolding get set remove latest_of minus_ℕ
delete_item id m = delete_found id m (get text_key id m.items)

unfoldable pub album_stat : Str → ℤ → ℕ → MemStore → Result MemStat
unfolding get
album_stat album year month m =
    found (get stat_key (record { album = album; year = year; month = month }) m.stats)

-- sortAlbumStats.
unfoldable pub stat_before : MemStat → MemStat → Bool
unfolding str_lt
stat_before a b =
    if str_eq a.album b.album
    then if eqb_ℤ a.year b.year then ltb b.month a.month else ltb_ℤ b.year a.year
    else str_lt a.album b.album

unfoldable pub album_stats : MemStore → Result (List MemStat)
unfolding sort stat_before
album_stats m = ok (sort stat_before (values m.stats))

unfoldable pub derived :
    List (Str × Blob) → List Item → List (StatKey × MemStat) → List (StatKey × MemStat)
unfolding get set count_in
derived blobs [] stats = stats
derived blobs (it ∷ items) stats =
    derived blobs items (count_item it (size_or_zero (get text_key it.hash blobs)) stats)

unfoldable pub derive_album_stats : MemStore → Result (List MemStat)
unfolding sort stat_before derived
derive_album_stats m = ok (sort stat_before (values (derived m.blobs (values m.items) [])))
