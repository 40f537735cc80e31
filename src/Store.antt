-- ===== src/Store.antt =====
-- backend/internal/store: the database behind store.SQLite. A table is the list of its rows; a
-- nullable column is an `Option`; `fault` says whether the driver fails a statement or a commit.
pub mod Tx
pub mod Meta
pub mod Devices
pub mod Codes
pub mod Jobs
pub mod Blobs
pub mod Stats
pub mod Items
use homesink.Base.{
  codes, ℕ, Bool, true, false, List, [], ◌∷◌, Option, none, some, Str, ◌==◌, if◌then◌else◌,
}
use homesink.Base.Int.{eqb_ℤ, pos, ℤ}
use homesink.Core.Errors.{Error}
use homesink.Core.Errors
use homesink.Core.Types.{MediaType}

-- What errors.Is and errors.As tell apart: an *core.Error, ErrAlreadyExists, and any other error.
pub data StoreError : Type 0 where
  wire : Error → StoreError
  already_exists : StoreError
  failure : StoreError

pub data Result {ℓ} (A : Type ℓ) : Type ℓ where
  ok : A → Result A
  err : StoreError → Result A

infixl 5 ◌>>=◌
abbrev pub ◌>>=◌ {ℓ κ} : {A : Type ℓ} {B : Type κ} → Result A → (A → Result B) → Result B
ok a >>= f = f a
err e >>= f = err e

abbrev pub not_found : StoreError
not_found = wire Errors.not_found

-- errors.Is(err, core.ErrNotFound()).
unfoldable pub is_not_found : StoreError → Bool
unfolding Errors.is
is_not_found (wire e) = Errors.is e Errors.not_found
is_not_found already_exists = false
is_not_found failure = false

-- errors.Is(err, store.ErrAlreadyExists).
unfoldable pub is_already_exists : StoreError → Bool
is_already_exists already_exists = true
is_already_exists e = false

pub record DeviceRow : Type 0 where
  pub device_id : Str
  pub name : Str
  pub token_hash : Str
  pub platform : Str
  pub app_version_code : Option ℤ
  pub created_at : ℕ
  pub last_seen_at : Option ℕ
  pub revoked_at : Option ℕ

pub record CodeRow : Type 0 where
  pub code_hash : Str
  pub expires_at : ℕ
  pub used_at : Option ℕ
  pub attempts : ℕ

pub data JobKind : Type 0 where
  thumbnail transcode probe : JobKind

pub data JobState : Type 0 where
  queued running done failed : JobState

pub record JobRow : Type 0 where
  pub job_id : ℕ
  pub kind : JobKind
  pub payload : Str
  pub priority : ℕ
  pub state : JobState
  pub attempts : ℕ
  pub next_attempt_at : ℕ
  pub last_error : Option Str
  pub created_at : ℕ
  pub updated_at : ℕ

-- BlobState is a string type with two constants.
abbrev pub BlobState : Type 0
BlobState = Str

abbrev pub stored : BlobState
stored = codes "stored"

abbrev pub missing : BlobState
missing = codes "missing"

pub record BlobRow : Type 0 where
  pub hash : Str
  pub size_bytes : ℕ
  pub mime_type : Str
  pub media_type : MediaType
  pub rel_path : Str
  pub state : BlobState
  pub stored_hash : Option Str
  pub original_replaced_at : Option ℕ
  pub width : Option ℕ
  pub height : Option ℕ
  pub duration_ms : Option ℕ
  pub created_at : ℕ

pub data VariantKind : Type 0 where
  thumb256 thumb1024 transcode : VariantKind

pub record VariantRow : Type 0 where
  pub hash : Str
  pub kind : VariantKind
  pub rel_path : Str
  pub size_bytes : ℕ
  pub width : Option ℕ
  pub height : Option ℕ
  pub created_at : ℕ

pub record ItemRow : Type 0 where
  pub item_id : Str
  pub hash : Str
  pub album : Str
  pub year : ℤ
  pub month : ℕ
  pub filename : Str
  pub rel_path : Str
  pub captured_at_ms : ℤ
  pub captured_offset_min : ℤ
  pub device_id : Option Str
  pub created_at : ℕ

pub record StatRow : Type 0 where
  pub album : Str
  pub year : ℤ
  pub month : ℕ
  pub item_count : ℤ
  pub size_bytes : ℤ
  pub latest_captured_at_ms : Option ℤ

pub record MetaRow : Type 0 where
  pub key : Str
  pub value : Str

-- `next_job_id` is the counter behind AUTOINCREMENT.
pub record Database : Type 0 where
  pub server_meta : List MetaRow
  pub blobs : List BlobRow
  pub items : List ItemRow
  pub blob_variants : List VariantRow
  pub album_stats : List StatRow
  pub jobs : List JobRow
  pub next_job_id : ℕ
  pub devices : List DeviceRow
  pub pairing_codes : List CodeRow

abbrev pub empty : Database
empty = record {
  server_meta = [];
  blobs = [];
  items = [];
  blob_variants = [];
  album_stats = [];
  jobs = [];
  next_job_id = 1;
  devices = [];
  pairing_codes = [];
}

-- withTx: what the body did is kept only if it and the driver succeed, else it is rolled back.
unfoldable pub commit {ℓ} : {A : Type ℓ} → Database → Result (A × Database) → Result A × Database
commit db (ok (a, db')) = (ok a, db')
commit db (err e) = (err e, db)

unfoldable pub with_tx {ℓ} :
    {A : Type ℓ} → Bool → (Database → Result (A × Database)) → Database → Result A × Database
unfolding commit
with_tx true body db = (err failure, db)
with_tx false body db = commit db (body db)

-- A query on the read handle.
unfoldable pub with_read {ℓ} : {A : Type ℓ} → Bool → (Database → Result A) → Database → Result A
with_read true query db = err failure
with_read false query db = query db

-- nullInt64, nullInt and nullString store a zero value as NULL.
unfoldable pub null_int : ℕ → Option ℕ
null_int n = if n == 0 then none else some n

unfoldable pub null_string : Str → Option Str
null_string [] = none
null_string (r ∷ s) = some (r ∷ s)

unfoldable pub null_integer : ℤ → Option ℤ
null_integer n = if eqb_ℤ n (pos 0) then none else some n

-- sql.NullInt64 and sql.NullString read NULL as the zero value.
unfoldable pub scan_int : Option ℕ → ℕ
scan_int none = 0
scan_int (some n) = n

unfoldable pub scan_integer : Option ℤ → ℤ
scan_integer none = pos 0
scan_integer (some n) = n

unfoldable pub scan_string : Option Str → Str
scan_string none = []
scan_string (some s) = s

-- requireOneRow.
unfoldable pub require_one_row : ℕ → Result (Unit {0})
require_one_row n = if n == 0 then err not_found else ok tt
