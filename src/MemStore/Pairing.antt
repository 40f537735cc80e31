-- ===== src/MemStore/Pairing.antt =====
-- The device and pairing code methods of backend/internal/testutil/memstore.go.
pub mod Devices
use homesink.Base.Int.{ℤ, pos, eqb_ℤ}
use homesink.Base.{
  ℕ, ◌+◌, Bool, not, ◌&&◌, List, [], ◌∷◌, ◌++◌, map, Option, none, some, Str, str_eq, keep, length,
  ltb, ◌==◌, if◌then◌else◌,
}
use homesink.Base.Sort.{sort}
use homesink.Store.{Result, ok, err, not_found, already_exists}
use homesink.Store.Codes.{PairingCode, used}
use homesink.Store.Devices.{Device, revoked, str_lt}
use homesink.MemStore.{MemStore}
use homesink.MemStore.Maps.{text_key, get, set}
use homesink.MemStore.Blobs.{found}

abbrev pub insert_new_device : Device → MemStore → Option Device → Result (Unit {0}) × MemStore
insert_new_device d m (some old) = (err already_exists, m)
insert_new_device d m none = (
  ok tt,
  record m {
    devices = set text_key d.device_id d m.devices;
    device_order = m.device_order ++ d.device_id ∷ [];
  },
)

unfoldable pub insert_device : Device → MemStore → Result (Unit {0}) × MemStore
unfolding get set
insert_device d m = insert_new_device d m (get text_key d.device_id m.devices)

unfoldable pub device_by_id : Str → MemStore → Result Device
unfolding get
device_by_id id m = found (get text_key id m.devices)

-- m.devices[id], whose zero value stands for a missing one.
abbrev device_or_zero : Option Device → Device
device_or_zero (some d) = d
device_or_zero none = record {
  device_id = [];
  name = [];
  token_hash = [];
  platform = [];
  app_version_code = pos 0;
  created_at = 0;
  last_seen_at = 0;
  revoked_at = 0;
}

abbrev in_order : MemStore → List Device
in_order m = map (λ id. device_or_zero (get text_key id m.devices)) m.device_order

unfoldable pub first_live : Str → List Device → Result Device
unfolding revoked str_eq
first_live h [] = err not_found
first_live h (d ∷ ds) = if str_eq d.token_hash h && not (revoked d) then ok d else first_live h ds

unfoldable pub device_by_token_hash : Str → MemStore → Result Device
unfolding get first_live
device_by_token_hash h m = first_live h (in_order m)

abbrev device_before : Device → Device → Bool
device_before a b =
    if a.created_at == b.created_at
    then str_lt a.device_id b.device_id
    else ltb a.created_at b.created_at

unfoldable pub list_devices : MemStore → Result (List Device)
unfolding get sort str_lt
list_devices m = ok (sort device_before (in_order m))

abbrev pub revoke_found : ℕ → Str → MemStore → Option Device → Result (Unit {0}) × MemStore
revoke_found now id m none = (err not_found, m)
revoke_found now id m (some d) =
    if revoked d
    then (ok tt, m)
    else (ok tt, record m { devices = set text_key id (record d { revoked_at = now }) m.devices })

unfoldable pub revoke_device : ℕ → Str → MemStore → Result (Unit {0}) × MemStore
unfolding get set revoked
revoke_device now id m = revoke_found now id m (get text_key id m.devices)

abbrev pub touched : ℕ → ℤ → Device → Device
touched now version d = record d {
  last_seen_at = now;
  app_version_code = if eqb_ℤ version (pos 0) then d.app_version_code else version;
}

abbrev pub touch_found : ℕ → Str → ℤ → MemStore → Option Device → Result (Unit {0}) × MemStore
touch_found now id version m none = (err not_found, m)
touch_found now id version m (some d) =
    (ok tt, record m { devices = set text_key id (touched now version d) m.devices })

unfoldable pub touch_device : ℕ → Str → ℤ → MemStore → Result (Unit {0}) × MemStore
unfolding get set
touch_device now id version m = touch_found now id version m (get text_key id m.devices)

abbrev pub insert_new_code :
    PairingCode → MemStore → Option PairingCode → Result (Unit {0}) × MemStore
insert_new_code pc m (some old) = (err already_exists, m)
insert_new_code pc m none =
    (ok tt, record m { pairing_codes = set text_key pc.code_hash pc m.pairing_codes })

unfoldable pub insert_pairing_code : PairingCode → MemStore → Result (Unit {0}) × MemStore
unfolding get set
insert_pairing_code pc m = insert_new_code pc m (get text_key pc.code_hash m.pairing_codes)

unfoldable pub pairing_code_by_hash : Str → MemStore → Result PairingCode
unfolding get
pairing_code_by_hash h m = found (get text_key h m.pairing_codes)

abbrev pub mark_found : ℕ → Str → MemStore → Option PairingCode → Result (Unit {0}) × MemStore
mark_found now h m none = (err not_found, m)
mark_found now h m (some pc) = if used pc then (err already_exists, m) else (
  ok tt,
  record m { pairing_codes = set text_key h (record pc { used_at_ms = now }) m.pairing_codes },
)

unfoldable pub mark_pairing_code_used : ℕ → Str → MemStore → Result (Unit {0}) × MemStore
unfolding get set used
mark_pairing_code_used now h m = mark_found now h m (get text_key h m.pairing_codes)

abbrev pub increment_found : Str → MemStore → Option PairingCode → Result ℕ × MemStore
increment_found h m none = (err not_found, m)
increment_found h m (some pc) =
    let next = record pc { attempts = pc.attempts + 1 } in
    (ok next.attempts, record m { pairing_codes = set text_key h next m.pairing_codes })

unfoldable pub increment_pairing_code_attempts : Str → MemStore → Result ℕ × MemStore
unfolding get set
increment_pairing_code_attempts h m = increment_found h m (get text_key h m.pairing_codes)

abbrev expired : ℕ → Str × PairingCode → Bool
expired t (h, pc) = ltb pc.expires_at_ms t

unfoldable pub delete_pairing_codes_before : ℕ → MemStore → Result ℕ × MemStore
delete_pairing_codes_before t m = (
  ok (length (keep (expired t) m.pairing_codes)),
  record m { pairing_codes = keep (λ e. not (expired t e)) m.pairing_codes },
)
