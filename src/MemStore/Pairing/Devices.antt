-- ===== src/MemStore/Pairing/Devices.antt =====
-- When MemStore and the SQLite store hold the same devices, and an UPDATE against an assignment.
pub mod Calls
pub mod Runs
use mathlib.Core.Option
use homesink.Base.{
  ◌≡◌, ◌≢◌, sym, ap, subst, ◌∙◌, inl, inr, true, false, Option, none, some, Str, str_eq,
  str_eq_sound, str_eq_refl, str_eq_ne, Bool-cases, select, update,
}
use homesink.Base.Table.{select-update, select-update_other}
use homesink.Store.{Database, DeviceRow, Result}
use homesink.Store.Devices.{Device, scan_device, has_id}
use homesink.Store.Devices
use homesink.MemStore.{MemStore}
use homesink.MemStore.Maps.{text_key, get, set}
use homesink.MemStore.Maps.Lookup.{get-set_same, get-set_other}

-- One device of the two stores. No row is revoked at 0, which MemStore reads as not revoked.
abbrev pub SameDevice : Option Device → Option DeviceRow → Type 0
SameDevice d none = d ≡ none
SameDevice d (some r) = (d ≡ some (scan_device r)) × (r.revoked_at ≢ some 0)

pub record Agrees (m : MemStore) (db : Database) : Type 0 where
  pub at : (id : Str) → SameDevice (get text_key id m.devices) (select (has_id id) db.devices)

pub record Refines (x : Result (Unit {0}) × MemStore) (y : Result (Unit {0}) × Database)
    : Type 0 where
  pub result : x.0 ≡ y.0
  pub states : Agrees x.1 y.1

apart_key : (id k : Str) (r : DeviceRow) → id ≢ k → has_id id r ≡ true → has_id k r ≡ false
apart_key id k r n e = str_eq_ne r.device_id k (λ s. n (sym (str_eq_sound r.device_id id e) ∙ s))

pub ne_of : (id k : Str) → str_eq id k ≡ false → id ≢ k
ne_of id k t e = cc (sym t ∙ ap (str_eq id) (sym e) ∙ str_eq_refl id)

-- An UPDATE of one device's row against an assignment of what it is read as.
module _ (id : Str) (f : DeviceRow → DeviceRow)
    (same_id : (r : DeviceRow) → (f r).device_id ≡ r.device_id) (m : MemStore) (db : Database)
    (r : DeviceRow) (agrees : Agrees m db) (at_id : select (has_id id) db.devices ≡ some r)
    (later : (f r).revoked_at ≢ some 0) (v : Device) (read : v ≡ scan_device (f r)) where
  row_id : select (has_id id) (update (has_id id) f db.devices) ≡ some (f r)
  row_id =
      select-update (has_id id) f db.devices (λ x e. rw (same_id x) e)
      ∙ ap (λ (o : Option DeviceRow). Option.map f o) at_id

  row_other :
      (k : Str)
      → id ≢ k
      → select (has_id k) (update (has_id id) f db.devices) ≡ select (has_id k) db.devices
  row_other k n =
      select-update_other (has_id id) (has_id k) f db.devices (λ x e. apart_key id k x n e)
        (λ x e. apart_key id k (f x) n (rw (same_id x) e))

  at_key :
      (k : Str)
      → SameDevice
          (get text_key k (set text_key id v m.devices))
          (select (has_id k) (update (has_id id) f db.devices))
  at_key k = elim (Bool-cases (str_eq id k)) [
    | inl t ↦
        subst
          (λ (x : Str).
            SameDevice (get text_key x (set text_key id v m.devices))
              (select (has_id x) (update (has_id id) f db.devices)))
          (str_eq_sound id k t) (rw row_id (get-set_same id v m.devices ∙ ap some read, later))
    | inr t ↦
        rw (row_other k (ne_of id k t), get-set_other id k v m.devices (ne_of id k t)) (agrees.at k)
  ]

  pub updated-Agrees :
      Agrees
        (record m { devices = set text_key id v m.devices })
        (record db { devices = update (has_id id) f db.devices })
  updated-Agrees = record { at = at_key }

pub found_row :
    (d : Option Device) (o : Option DeviceRow) (r : DeviceRow)
    → SameDevice d o
    → o ≡ some r
    → (d ≡ some (scan_device r)) × (r.revoked_at ≢ some 0)
found_row d o r a e = subst (SameDevice d) e a

pub no_row : (d : Option Device) (o : Option DeviceRow) → SameDevice d o → o ≡ none → d ≡ none
no_row d o a e = subst (SameDevice d) e a
