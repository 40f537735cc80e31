-- ===== src/Store/Devices.antt =====
-- backend/internal/store/devices.go: the devices table.
use homesink.Base.Int.{ℤ}
use homesink.Base.{
  ℕ, Bool, true, false, not, ◌&&◌, ◌||◌, List, [], ◌∷◌, ◌++◌, map, Option, none, some, Str, str_eq,
  ltb, ◌==◌, if◌then◌else◌, select, update, affected,
}
use homesink.Base.Sort.{sort}
use homesink.Store.{
  null_integer, scan_integer, Database, DeviceRow, Result, ok, err, not_found, already_exists,
  with_tx, with_read, null_int, scan_int,
}

pub record Device : Type 0 where
  pub device_id : Str
  pub name : Str
  pub token_hash : Str
  pub platform : Str
  pub app_version_code : ℤ
  pub created_at : ℕ
  pub last_seen_at : ℕ
  pub revoked_at : ℕ

-- (d Device) Revoked().
unfoldable pub revoked : Device → Bool
revoked d = not (d.revoked_at == 0)

-- The row that InsertDevice writes.
unfoldable pub device_row : Device → DeviceRow
unfolding null_int null_integer
device_row d = record {
  device_id = d.device_id;
  name = d.name;
  token_hash = d.token_hash;
  platform = d.platform;
  app_version_code = null_integer d.app_version_code;
  created_at = d.created_at;
  last_seen_at = null_int d.last_seen_at;
  revoked_at = null_int d.revoked_at;
}

unfoldable pub scan_device : DeviceRow → Device
unfolding scan_int scan_integer
scan_device r = record {
  device_id = r.device_id;
  name = r.name;
  token_hash = r.token_hash;
  platform = r.platform;
  app_version_code = scan_integer r.app_version_code;
  created_at = r.created_at;
  last_seen_at = scan_int r.last_seen_at;
  revoked_at = scan_int r.revoked_at;
}

abbrev pub has_id : Str → DeviceRow → Bool
has_id id r = str_eq r.device_id id

abbrev pub is_null {ℓ} : {A : Type ℓ} → Option A → Bool
is_null none = true
is_null (some a) = false

-- WHERE token_hash = ? AND revoked_at IS NULL.
abbrev pub has_live_token : Str → DeviceRow → Bool
has_live_token h r = str_eq r.token_hash h && is_null r.revoked_at

unfoldable pub insert_device_tx : Device → Database → Result (Unit {0} × Database)
unfolding device_row
insert_device_tx d db = elim (select (has_id d.device_id) db.devices) [
  | some _ ↦ err already_exists
  | none ↦ ok (tt, record db { devices = db.devices ++ device_row d ∷ [] })
]

unfoldable pub insert_device : Bool → Device → Database → Result (Unit {0}) × Database
unfolding with_tx insert_device_tx
insert_device fault d = with_tx fault (insert_device_tx d)

unfoldable pub found_device : Option DeviceRow → Result Device
unfolding scan_device
found_device none = err not_found
found_device (some r) = ok (scan_device r)

unfoldable pub device_by_id : Bool → Str → Database → Result Device
unfolding with_read found_device
device_by_id fault id = with_read fault (λ db. found_device (select (has_id id) db.devices))

unfoldable pub device_by_token_hash : Bool → Str → Database → Result Device
unfolding with_read found_device
device_by_token_hash fault h =
    with_read fault (λ db. found_device (select (has_live_token h) db.devices))

-- The order of text columns: bytewise, which is the order of the code points.
unfoldable pub str_lt : Str → Str → Bool
str_lt [] [] = false
str_lt [] (y ∷ ys) = true
str_lt (x ∷ xs) [] = false
str_lt (x ∷ xs) (y ∷ ys) = ltb x y || (x == y && str_lt xs ys)

-- ORDER BY created_at, device_id.
unfoldable pub device_before : DeviceRow → DeviceRow → Bool
unfolding str_lt
device_before a b =
    ltb a.created_at b.created_at
    || (a.created_at == b.created_at && str_lt a.device_id b.device_id)

unfoldable pub list_devices : Bool → Database → Result (List Device)
unfolding with_read scan_device device_before sort
list_devices fault = with_read fault (λ db. ok (map scan_device (sort device_before db.devices)))

abbrev pub revoke : ℕ → DeviceRow → DeviceRow
revoke now r = record r { revoked_at = some now }

-- What follows the SELECT of revoked_at.
unfoldable pub after_find : ℕ → Str → Database → Option DeviceRow → Result (Unit {0} × Database)
after_find now id db none = err not_found
after_find now id db (some r) =
    if is_null r.revoked_at
    then ok (tt, record db { devices = update (has_id id) (revoke now) db.devices })
    else ok (tt, db)

unfoldable pub revoke_device_tx : ℕ → Str → Database → Result (Unit {0} × Database)
revoke_device_tx now id db = after_find now id db (select (has_id id) db.devices)

unfoldable pub revoke_device : Bool → ℕ → Str → Database → Result (Unit {0}) × Database
unfolding with_tx revoke_device_tx
revoke_device fault now id = with_tx fault (revoke_device_tx now id)

-- COALESCE(?, app_version_code).
abbrev pub coalesce {ℓ} : {A : Type ℓ} → Option A → Option A → Option A
coalesce none b = b
coalesce (some a) b = some a

unfoldable pub touch : ℕ → ℤ → DeviceRow → DeviceRow
unfolding null_integer
touch now version r = record r {
  last_seen_at = some now;
  app_version_code = coalesce (null_integer version) r.app_version_code;
}

unfoldable pub touch_device_tx : ℕ → Str → ℤ → Database → Result (Unit {0} × Database)
unfolding touch
touch_device_tx now id version db =
    if affected (has_id id) db.devices == 0
    then err not_found
    else ok (tt, record db { devices = update (has_id id) (touch now version) db.devices })

unfoldable pub touch_device : Bool → ℕ → Str → ℤ → Database → Result (Unit {0}) × Database
unfolding with_tx touch_device_tx
touch_device fault now id version = with_tx fault (touch_device_tx now id version)
