-- ===== src/Store/Blobs.antt =====
-- backend/internal/store/blobs.go: the blobs and blob_variants tables.
use homesink.Base.{
  ◌||◌, if◌then◌else◌, ◌==◌, ℕ, Bool, true, false, ◌&&◌, List, [], ◌∷◌, ◌++◌, map, keep, Option,
  none, some, Str, str_eq, ltb, select, update, affected,
}
use homesink.Base.Sort.{sort}
use homesink.Core.Types.{MediaType, image, video, audio, Blob}
use homesink.Store.{
  missing, Database, BlobRow, VariantRow, BlobState, stored, VariantKind, thumb256, thumb1024,
  transcode, Result, ok, err, not_found, already_exists, failure, with_tx, with_read, null_int,
  null_string, scan_int, scan_string, require_one_row,
}

pub record BlobVariant : Type 0 where
  pub hash : Str
  pub kind : VariantKind
  pub rel_path : Str
  pub size_bytes : ℕ
  pub width : ℕ
  pub height : ℕ
  pub created_at : ℕ

abbrev pub is_blob : Str → BlobRow → Bool
is_blob h r = str_eq r.hash h

-- The row that InsertBlob writes.
unfoldable pub blob_row : Blob → BlobRow
blob_row b = record {
  hash = b.hash;
  size_bytes = b.size_bytes;
  mime_type = b.mime_type;
  media_type = b.media_type;
  rel_path = b.rel_path;
  state = stored;
  stored_hash = null_string b.stored_hash;
  original_replaced_at = b.original_replaced_at;
  width = null_int b.width;
  height = null_int b.height;
  duration_ms = null_int b.duration_ms;
  created_at = b.created_at;
}

unfoldable pub scan_blob : BlobRow → Blob
scan_blob r = record {
  hash = r.hash;
  size_bytes = r.size_bytes;
  mime_type = r.mime_type;
  media_type = r.media_type;
  rel_path = r.rel_path;
  stored_hash = scan_string r.stored_hash;
  original_replaced_at = r.original_replaced_at;
  width = scan_int r.width;
  height = scan_int r.height;
  duration_ms = scan_int r.duration_ms;
  created_at = r.created_at;
}

unfoldable pub found_blob : Option BlobRow → Result Blob
found_blob none = err not_found
found_blob (some r) = ok (scan_blob r)

unfoldable pub blob_by_hash : Bool → Str → Database → Result Blob
blob_by_hash fault h = with_read fault (λ db. found_blob (select (is_blob h) db.blobs))

-- The CHECKs on media_type and state.
unfoldable pub is_media_type : MediaType → Bool
is_media_type m = str_eq m image || (str_eq m video || str_eq m audio)

unfoldable pub is_blob_state : BlobState → Bool
is_blob_state s = str_eq s stored || str_eq s missing

-- The CHECK comes before the primary key.
unfoldable pub insert_new_tx : Blob → Database → Result (Unit {0} × Database)
insert_new_tx b db = elim (select (is_blob b.hash) db.blobs) [
  | some r ↦ err already_exists
  | none ↦ ok (tt, record db { blobs = db.blobs ++ blob_row b ∷ [] })
]

unfoldable pub insert_blob_tx : Blob → Database → Result (Unit {0} × Database)
insert_blob_tx b db = if is_media_type b.media_type then insert_new_tx b db else err failure

unfoldable pub insert_blob : Bool → Blob → Database → Result (Unit {0}) × Database
insert_blob fault b = with_tx fault (insert_blob_tx b)

-- An UPDATE of the row of one hash, then requireOneRow.
unfoldable pub update_blob_tx : Str → (BlobRow → BlobRow) → Database → Result (Unit {0} × Database)
update_blob_tx h f db = elim (require_one_row (affected (is_blob h) db.blobs)) [
  | err e ↦ err e
  | ok done ↦ ok (done, record db { blobs = update (is_blob h) f db.blobs })
]

abbrev pub with_state : BlobState → BlobRow → BlobRow
with_state state r = record r { state = state }

-- The CHECK refuses the UPDATE of a row; where no row has the hash there is none to check.
unfoldable pub set_blob_state_tx : Str → BlobState → Database → Result (Unit {0} × Database)
set_blob_state_tx h state db =
    if is_blob_state state || affected (is_blob h) db.blobs == 0
    then update_blob_tx h (with_state state) db
    else err failure

unfoldable pub set_blob_state : Bool → Str → BlobState → Database → Result (Unit {0}) × Database
set_blob_state fault h state = with_tx fault (set_blob_state_tx h state)

abbrev pub replaced : Str → ℕ → BlobRow → BlobRow
replaced stored_hash now r = record r {
  stored_hash = some stored_hash;
  original_replaced_at = some now;
}

unfoldable pub set_blob_stored_hash : Bool → ℕ → Str → Str → Database → Result (Unit {0}) × Database
set_blob_stored_hash fault now h stored_hash =
    with_tx fault (update_blob_tx h (replaced stored_hash now))

abbrev pub with_media : ℕ → ℕ → ℕ → BlobRow → BlobRow
with_media width height duration r = record r {
  width = null_int width;
  height = null_int height;
  duration_ms = null_int duration;
}

unfoldable pub set_blob_media : Bool → Str → ℕ → ℕ → ℕ → Database → Result (Unit {0}) × Database
set_blob_media fault h width height duration =
    with_tx fault (update_blob_tx h (with_media width height duration))

unfoldable pub kind_eq : VariantKind → VariantKind → Bool
kind_eq thumb256 thumb256 = true
kind_eq thumb1024 thumb1024 = true
kind_eq transcode transcode = true
kind_eq a b = false

abbrev pub is_variant : Str → VariantKind → VariantRow → Bool
is_variant h kind r = str_eq r.hash h && kind_eq r.kind kind

unfoldable pub variant_row : BlobVariant → VariantRow
variant_row v = record {
  hash = v.hash;
  kind = v.kind;
  rel_path = v.rel_path;
  size_bytes = v.size_bytes;
  width = null_int v.width;
  height = null_int v.height;
  created_at = v.created_at;
}

unfoldable pub scan_variant : VariantRow → BlobVariant
scan_variant r = record {
  hash = r.hash;
  kind = r.kind;
  rel_path = r.rel_path;
  size_bytes = r.size_bytes;
  width = scan_int r.width;
  height = scan_int r.height;
  created_at = r.created_at;
}

-- ON CONFLICT (hash, kind) DO UPDATE: the key stays, the rest is the new row's.
abbrev pub overwrite : VariantRow → VariantRow → VariantRow
overwrite new r = record new { hash = r.hash; kind = r.kind }

abbrev upsert_variant : VariantRow → List VariantRow → List VariantRow
upsert_variant new rows = elim (select (is_variant new.hash new.kind) rows) [
  | none ↦ rows ++ new ∷ []
  | some r ↦ update (is_variant new.hash new.kind) (overwrite new) rows
]

-- The foreign key to blobs refuses a variant of an unknown hash.
unfoldable pub insert_blob_variant_tx : BlobVariant → Database → Result (Unit {0} × Database)
insert_blob_variant_tx v db = elim (select (is_blob v.hash) db.blobs) [
  | none ↦ err failure
  | some r ↦ ok (tt, record db { blob_variants = upsert_variant (variant_row v) db.blob_variants })
]

unfoldable pub insert_blob_variant : Bool → BlobVariant → Database → Result (Unit {0}) × Database
insert_blob_variant fault v = with_tx fault (insert_blob_variant_tx v)

unfoldable pub found_variant : Option VariantRow → Result BlobVariant
found_variant none = err not_found
found_variant (some r) = ok (scan_variant r)

unfoldable pub blob_variant : Bool → Str → VariantKind → Database → Result BlobVariant
blob_variant fault h kind =
    with_read fault (λ db. found_variant (select (is_variant h kind) db.blob_variants))

-- ORDER BY kind, as text: thumb1024, thumb256, transcode.
abbrev kind_rank : VariantKind → ℕ
kind_rank thumb1024 = 0
kind_rank thumb256 = 1
kind_rank transcode = 2

abbrev variant_before : VariantRow → VariantRow → Bool
variant_before a b = ltb (kind_rank a.kind) (kind_rank b.kind)

abbrev is_variant_of : Str → VariantRow → Bool
is_variant_of h r = str_eq r.hash h

unfoldable pub blob_variants_by_hash : Bool → Str → Database → Result (List BlobVariant)
blob_variants_by_hash fault h =
    with_read fault
      (λ db. ok (map scan_variant (sort variant_before (keep (is_variant_of h) db.blob_variants))))
