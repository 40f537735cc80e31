-- ===== src/Store/Stats.antt =====
-- backend/internal/store/stats.go: the album_stats counters.
pub mod Aggregate
pub mod Derived
pub mod Groups
use homesink.Base.{
  ℕ, ◌+◌, Bool, true, false, ◌&&◌, ◌||◌, List, [], ◌∷◌, ◌++◌, map, keep, length, Option, none, some,
  Str, str_eq, ltb, ◌==◌, select, update, delete,
}
use homesink.Base.Int.{ℤ, pos, plus_ℕ, minus_ℕ, max_ℤ, eqb_ℤ, ltb_ℤ}
use homesink.Base.Sort.{sort}
use homesink.Store.{Database, BlobRow, ItemRow, StatRow, Result, ok, err, with_read, not_found}
use homesink.Store.Devices.{str_lt}

pub record AlbumStat : Type 0 where
  pub album : Str
  pub year : ℤ
  pub month : ℕ
  pub item_count : ℤ
  pub size_bytes : ℤ
  pub latest_captured_at_ms : ℤ

-- The columns (album, year, month): a primary key, and the groups of the aggregate.
pub record Key : Type 0 where
  pub album : Str
  pub year : ℤ
  pub month : ℕ

unfoldable pub key_eq : Key → Key → Bool
key_eq a b = str_eq a.album b.album && eqb_ℤ a.year b.year && a.month == b.month

abbrev pub stat_key : StatRow → Key
stat_key r = record { album = r.album; year = r.year; month = r.month }

abbrev pub is_key : Key → StatRow → Bool
is_key k r = key_eq (stat_key r) k

abbrev pub key_of : ItemRow → Key
key_of it = record { album = it.album; year = it.year; month = it.month }

abbrev pub in_key : Key → ItemRow → Bool
in_key k it = key_eq (key_of it) k

unfoldable pub scan_album_stat : StatRow → AlbumStat
scan_album_stat r = record {
  album = r.album;
  year = r.year;
  month = r.month;
  item_count = r.item_count;
  size_bytes = r.size_bytes;
  latest_captured_at_ms = elim r.latest_captured_at_ms [ none ↦ pos 0 | some t ↦ t ];
}

unfoldable pub found_stat : Option StatRow → Result AlbumStat
found_stat none = err not_found
found_stat (some r) = ok (scan_album_stat r)

unfoldable pub album_stat : Bool → Key → Database → Result AlbumStat
album_stat fault k = with_read fault (λ db. found_stat (select (is_key k) db.album_stats))

-- ORDER BY album, year DESC, month DESC.
unfoldable pub stat_before : StatRow → StatRow → Bool
stat_before a b =
    str_lt a.album b.album
    || (str_eq a.album b.album
        && (ltb_ℤ b.year a.year || (eqb_ℤ a.year b.year && ltb b.month a.month)))

unfoldable pub album_stats : Bool → Database → Result (List AlbumStat)
album_stats fault =
    with_read fault (λ db. ok (map scan_album_stat (sort stat_before db.album_stats)))

-- The join of items with blobs: `none` where no blob has the hash.
abbrev pub has_hash : Str → BlobRow → Bool
has_hash h b = str_eq b.hash h

abbrev pub size : Option BlobRow → Option ℕ
size none = none
size (some b) = some b.size_bytes

unfoldable pub size_of : List BlobRow → Str → Option ℕ
size_of blobs h = size (select (has_hash h) blobs)

-- COUNT(*), SUM(size_bytes) and MAX(captured_at_ms) of a group.
abbrev pub add_size : Option ℕ → ℕ → ℕ
add_size none rest = rest
add_size (some n) rest = n + rest

unfoldable pub total : List BlobRow → List ItemRow → ℕ
total blobs [] = 0
total blobs (it ∷ items) = add_size (size_of blobs it.hash) (total blobs items)

unfoldable pub latest_from : ℤ → List ItemRow → ℤ
latest_from m [] = m
latest_from m (it ∷ items) = latest_from (max_ℤ m it.captured_at_ms) items

unfoldable pub latest : List ItemRow → Option ℤ
latest [] = none
latest (it ∷ items) = some (latest_from it.captured_at_ms items)

abbrev pub holds {ℓ} : {A : Type ℓ} → Option A → Bool
holds none = false
holds (some a) = true

abbrev pub is_joined : List BlobRow → ItemRow → Bool
is_joined blobs it = holds (size_of blobs it.hash)

-- The row of one group; no row for an empty one.
unfoldable pub group_row : Key → List BlobRow → List ItemRow → List StatRow
group_row k blobs [] = []
group_row k blobs (it ∷ items) =
    record {
      album = k.album;
      year = k.year;
      month = k.month;
      item_count = pos (length (it ∷ items));
      size_bytes = pos (total blobs (it ∷ items));
      latest_captured_at_ms = latest (it ∷ items);
    }
    ∷ []

-- One group of DeriveAlbumStats: the rows of items with the key that join a blob.
unfoldable pub derive_group : Key → Database → List StatRow
derive_group k db = group_row k db.blobs (keep (is_joined db.blobs) (keep (in_key k) db.items))

-- GROUP BY: the groups of the keys met, each at its first item.
unfoldable pub derive_groups : List ItemRow → List Key → Database → List StatRow
derive_groups [] seen db = []
derive_groups (it ∷ items) seen db = elim (select (key_eq (key_of it)) seen) [
  | some met ↦ derive_groups items seen db
  | none ↦ derive_group (key_of it) db ++ derive_groups items (key_of it ∷ seen) db
]

unfoldable pub derive_album_stats : Bool → Database → Result (List AlbumStat)
derive_album_stats fault =
    with_read fault
      (λ db. ok (map scan_album_stat (sort stat_before (derive_groups db.items [] db))))

-- The row of addToAlbumStatsTx after the conflict.
unfoldable pub increment : ℕ → ℤ → StatRow → StatRow
increment bytes captured r = record r {
  item_count = plus_ℕ r.item_count 1;
  size_bytes = plus_ℕ r.size_bytes bytes;
  latest_captured_at_ms = elim r.latest_captured_at_ms [
    | none ↦ some (max_ℤ captured captured)
    | some t ↦ some (max_ℤ t captured)
  ];
}

-- The row that the INSERT offers, and its effect, by the row that it conflicts with.
abbrev pub first_row : Key → ℕ → ℤ → StatRow
first_row k bytes captured = record {
  album = k.album;
  year = k.year;
  month = k.month;
  item_count = pos 1;
  size_bytes = pos bytes;
  latest_captured_at_ms = some captured;
}

unfoldable pub upsert : Key → ℕ → ℤ → Option StatRow → List StatRow → List StatRow
upsert k bytes captured (some r) rows = update (is_key k) (increment bytes captured) rows
upsert k bytes captured none rows = rows ++ first_row k bytes captured ∷ []

unfoldable pub add_to_album_stats_tx : Key → ℕ → ℤ → Database → Database
add_to_album_stats_tx k bytes captured db = record db {
  album_stats = upsert k bytes captured (select (is_key k) db.album_stats) db.album_stats;
}

unfoldable pub decrement : ℕ → Option ℤ → StatRow → StatRow
decrement bytes newest r = record r {
  item_count = minus_ℕ r.item_count 1;
  size_bytes = minus_ℕ r.size_bytes bytes;
  latest_captured_at_ms = newest;
}

abbrev pub is_empty : Key → StatRow → Bool
is_empty k r = is_key k r && ltb_ℤ r.item_count (pos 1)

unfoldable pub remove_from_album_stats_tx : Key → ℕ → Database → Database
remove_from_album_stats_tx k bytes db = record db {
  album_stats =
      delete (is_empty k)
        (update (is_key k) (decrement bytes (latest (keep (in_key k) db.items))) db.album_stats);
}
