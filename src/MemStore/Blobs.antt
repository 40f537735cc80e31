-- ===== src/MemStore/Blobs.antt =====
-- Meta, SetMeta and the blob methods of backend/internal/testutil/memstore.go.
pub mod Agree
pub mod Calls
pub mod Refines
use homesink.Base.{ℕ, Bool, List, Option, none, some, Str, str_eq, keep, ltb}
use homesink.Base.Sort.{sort}
use homesink.Core.Types.{Blob}
use homesink.Store.{
  BlobState, stored, VariantKind, thumb256, thumb1024, transcode, Result, ok, err, not_found,
  already_exists,
}
use homesink.Store.Blobs.{BlobVariant}
use homesink.MemStore.{MemStore, variant_key}
use homesink.MemStore.Maps.{text_key, get, set, values}

-- A value that is looked up, or core.ErrNotFound.
abbrev pub found {ℓ} : {A : Type ℓ} → Option A → Result A
found none = err not_found
found (some a) = ok a

unfoldable pub blob_state : Str → MemStore → Option BlobState
blob_state hash m = get text_key hash m.blob_states

unfoldable pub meta : Str → MemStore → Result Str
meta key m = found (get text_key key m.meta)

unfoldable pub set_meta : Str → Str → MemStore → Result (Unit {0}) × MemStore
set_meta key value m = (ok tt, record m { meta = set text_key key value m.meta })

unfoldable pub blob_by_hash : Str → MemStore → Result Blob
blob_by_hash hash m = found (get text_key hash m.blobs)

-- What follows each look-up of a blob.
abbrev pub insert_new : Blob → MemStore → Option Blob → Result (Unit {0}) × MemStore
insert_new b m (some old) = (err already_exists, m)
insert_new b m none = (
  ok tt,
  record m {
    blobs = set text_key b.hash b m.blobs;
    blob_states = set text_key b.hash stored m.blob_states;
  },
)

unfoldable pub insert_blob : Blob → MemStore → Result (Unit {0}) × MemStore
unfolding get set
insert_blob b m = insert_new b m (get text_key b.hash m.blobs)

abbrev pub with_state : Str → BlobState → MemStore → Option Blob → Result (Unit {0}) × MemStore
with_state hash state m none = (err not_found, m)
with_state hash state m (some b) =
    (ok tt, record m { blob_states = set text_key hash state m.blob_states })

unfoldable pub set_blob_state : Str → BlobState → MemStore → Result (Unit {0}) × MemStore
unfolding get set
set_blob_state hash state m = with_state hash state m (get text_key hash m.blobs)

-- m.blobs[hash] = f(b).
abbrev pub with_blob : Str → (Blob → Blob) → MemStore → Option Blob → Result (Unit {0}) × MemStore
with_blob hash f m none = (err not_found, m)
with_blob hash f m (some b) = (ok tt, record m { blobs = set text_key hash (f b) m.blobs })

abbrev pub replaced : ℕ → Str → Blob → Blob
replaced now stored_hash b = record b { stored_hash = stored_hash; original_replaced_at = some now }

unfoldable pub set_blob_stored_hash : ℕ → Str → Str → MemStore → Result (Unit {0}) × MemStore
unfolding get set
set_blob_stored_hash now hash stored_hash m =
    with_blob hash (replaced now stored_hash) m (get text_key hash m.blobs)

abbrev pub with_media : ℕ → ℕ → ℕ → Blob → Blob
with_media width height duration b = record b {
  width = width;
  height = height;
  duration_ms = duration;
}

unfoldable pub set_blob_media : Str → ℕ → ℕ → ℕ → MemStore → Result (Unit {0}) × MemStore
unfolding get set
set_blob_media hash width height duration m =
    with_blob hash (with_media width height duration) m (get text_key hash m.blobs)

unfoldable pub insert_blob_variant : BlobVariant → MemStore → Result (Unit {0}) × MemStore
unfolding set
insert_blob_variant v m =
    (ok tt, record m { variants = set variant_key (v.hash, v.kind) v m.variants })

unfoldable pub blob_variant : Str → VariantKind → MemStore → Result BlobVariant
unfolding get
blob_variant hash kind m = found (get variant_key (hash, kind) m.variants)

-- The order of the kinds as texts.
abbrev kind_rank : VariantKind → ℕ
kind_rank thumb1024 = 0
kind_rank thumb256 = 1
kind_rank transcode = 2

abbrev kind_before : BlobVariant → BlobVariant → Bool
kind_before a b = ltb (kind_rank a.kind) (kind_rank b.kind)

abbrev is_variant_of : Str → (Str × VariantKind) × BlobVariant → Bool
is_variant_of hash (k, v) = str_eq k.0 hash

unfoldable pub blob_variants_by_hash : Str → MemStore → Result (List BlobVariant)
unfolding sort
blob_variants_by_hash hash m = ok (sort kind_before (values (keep (is_variant_of hash) m.variants)))
