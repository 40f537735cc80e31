-- ===== src/MemStore.antt =====
-- backend/internal/testutil/memstore.go: the store that tests use in place of SQLite. A method's
-- mutex makes it one step; `now` is the clock's time in it.
pub mod Maps
pub mod Blobs
pub mod Items
pub mod Jobs
pub mod Pairing
use homesink.Base.{ℕ, ◌&&◌, List, [], Str, str_eq, ◌==◌}
use homesink.Base.Int.{ℤ, eqb_ℤ}
use homesink.Core.Types.{Blob, Item}
use homesink.Store.{BlobState, VariantKind}
use homesink.Store.Blobs.{BlobVariant, kind_eq}
use homesink.Store.Codes.{PairingCode}
use homesink.Store.Devices.{Device}
use homesink.Store.Jobs.{Job}
use homesink.MemStore.Maps.{Key}

-- store.AlbumStat, whose latest capture time is a plain number.
pub record MemStat : Type 0 where
  pub album : Str
  pub year : ℤ
  pub month : ℕ
  pub item_count : ℤ
  pub size_bytes : ℤ
  pub latest_captured_at_ms : ℤ

pub record StatKey : Type 0 where
  pub album : Str
  pub year : ℤ
  pub month : ℕ

abbrev pub stat_key : Key StatKey
stat_key = record {
  same = λ a b. str_eq a.album b.album && (eqb_ℤ a.year b.year && (a.month == b.month));
}

abbrev pub variant_key : Key (Str × VariantKind)
variant_key = record { same = λ a b. str_eq a.0 b.0 && kind_eq a.1 b.1 }

pub record MemStore : Type 0 where
  pub meta : List (Str × Str)
  pub blobs : List (Str × Blob)
  pub blob_states : List (Str × BlobState)
  pub variants : List ((Str × VariantKind) × BlobVariant)
  pub items : List (Str × Item)
  pub items_by_path : List (Str × Str)
  pub stats : List (StatKey × MemStat)
  pub jobs : List (ℕ × Job)
  pub next_job_id : ℕ
  pub devices : List (Str × Device)
  pub device_order : List Str
  pub pairing_codes : List (Str × PairingCode)

-- NewMemStore.
abbrev pub new_mem_store : MemStore
new_mem_store = record {
  meta = [];
  blobs = [];
  blob_states = [];
  variants = [];
  items = [];
  items_by_path = [];
  stats = [];
  jobs = [];
  next_job_id = 0;
  devices = [];
  device_order = [];
  pairing_codes = [];
}
