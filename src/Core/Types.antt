-- ===== src/Core/Types.antt =====
-- backend/internal/core/types.go: blobs, items and placements. A capture time may lie before 1970,
-- so it is an integer; sizes and the server's own clock are natural numbers.
use homesink.Base.{ℕ, Option, Str, codes}
use homesink.Base.Int.{ℤ}

-- MediaType is a string type, with a constant for each class that the store accepts.
abbrev pub MediaType : Type 0
MediaType = Str

abbrev pub image : MediaType
image = codes "image"

abbrev pub video : MediaType
video = codes "video"

abbrev pub audio : MediaType
audio = codes "audio"

pub record Blob : Type 0 where
  pub hash : Str
  pub size_bytes : ℕ
  pub mime_type : Str
  pub media_type : MediaType
  pub rel_path : Str
  pub stored_hash : Str
  pub original_replaced_at : Option ℕ
  pub width : ℕ
  pub height : ℕ
  pub duration_ms : ℕ
  pub created_at : ℕ

pub record Item : Type 0 where
  pub item_id : Str
  pub hash : Str
  pub album : Str
  pub year : ℤ
  pub month : ℕ
  pub filename : Str
  pub rel_path : Str
  pub captured_at_ms : ℤ
  pub captured_offset_min : ℤ
  pub device_id : Str
  pub created_at : ℕ

pub record Placement : Type 0 where
  pub album : Str
  pub captured_at_ms : ℤ
  pub captured_offset_min : ℤ
  pub filename : Str
