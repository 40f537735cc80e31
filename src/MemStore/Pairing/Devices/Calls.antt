-- ===== src/MemStore/Pairing/Devices/Calls.antt =====
-- InsertDevice, RevokeDevice and TouchDevice of MemStore against those of the SQLite store.
use homesink.Base.Int.{ℤ, pos, eqb_ℤ, eqb_ℤ_iff}
use homesink.Base.{
  ℕ, ◌≡◌, ◌≢◌, ◌≤◌, refl, sym, ap, subst, ◌∙◌, inl, inr, Bool, false, not, [], ◌∷◌, ◌++◌, Option,
  none, some, Str, str_eq, str_eq_sound, str_eq_refl, ◌==◌, ==_iff, if◌then◌else◌, Bool-cases,
  Option-cases, select, update, arith,
}
use homesink.Base.Table.{select-append, select-append_other, affected-zero, affected-pos}
use homesink.Store.{
  null_integer, scan_integer, Database, DeviceRow, ok, err, not_found, already_exists, commit,
  null_int, scan_int,
}
use homesink.Store.Devices.{
  Device, revoked, device_row, scan_device, has_id, is_null, insert_device_tx, found_device,
  after_find, revoke_device_tx, touch_device_tx, coalesce,
}
use homesink.Store.Devices
use homesink.MemStore.{MemStore}
use homesink.MemStore.Maps.{text_key, get, set}
use homesink.MemStore.Maps.Lookup.{get-set_same, get-set_other}
use homesink.MemStore.Blobs.Agree.{scan_int-null_int}
use homesink.MemStore.Pairing.{insert_new_device, revoke_found, touched, touch_found}
use homesink.MemStore.Pairing.Devices.{
  SameDevice, Agrees, Refines, ne_of, updated-Agrees, found_row, no_row,
}

-- RevokeDevice.
revoked_option : (o : Option ℕ) → o ≢ some 0 → not (scan_int o == 0) ≡ not (is_null o)
unfolding scan_int
revoked_option none n = refl
revoked_option (some t) n = elim (Bool-cases (t == 0)) [
  | inl z ↦ absurd (n (ap some ((==_iff t 0).0 z)))
  | inr z ↦ rw z refl
]

revoked_lem :
    (r : DeviceRow) → r.revoked_at ≢ some 0 → revoked (scan_device r) ≡ not (is_null r.revoked_at)
unfolding revoked scan_device
revoked_lem r n = revoked_option r.revoked_at n

positive : (now : ℕ) → 1 ≤ now → some now ≢ some 0
positive now h e = let zero_now : now ≡ 0 = cc e in absurd (omega (arith, zero_now))

revoke_row-Refines :
    (now : ℕ) (id : Str) (m : MemStore) (db : Database) (r : DeviceRow)
    → 1 ≤ now
    → Agrees m db
    → select (has_id id) db.devices ≡ some r
    → r.revoked_at ≢ some 0
    → Refines
        (revoke_found now id m (some (scan_device r)))
        (commit db (after_find now id db (some r)))
unfolding commit after_find scan_device
revoke_row-Refines now id m db r h a e n = elim (Bool-cases (is_null r.revoked_at)) [
  | inl t ↦
      rw (revoked_lem r n, commit, after_find, t)
        (record {
          result = refl;
          states =
              updated-Agrees id (Devices.revoke now) (λ x. refl) m db r a e (positive now h)
                (record (scan_device r) { revoked_at = now }) refl;
        })
  | inr t ↦ rw (revoked_lem r n, commit, after_find, t) (record { result = refl; states = a })
]

pub revoke-Refines :
    (now : ℕ) (id : Str) (m : MemStore) (db : Database)
    → 1 ≤ now
    → Agrees m db
    → Refines
        (revoke_found now id m (get text_key id m.devices))
        (commit db (revoke_device_tx now id db))
unfolding revoke_device_tx commit after_find
revoke-Refines now id m db h a = elim (Option-cases (select (has_id id) db.devices)) [
  | inl e ↦ rw (no_row _ _ (a.at id) e, e) (record { result = refl; states = a })
  | inr (r, e) ↦
      let (d, n) = found_row _ _ r (a.at id) e in
      rw (d, e) (revoke_row-Refines now id m db r h a e n)
]

-- TouchDevice.
version_lem :
    (version : ℤ) (o : Option ℤ)
    → scan_integer (coalesce (null_integer version) o)
      ≡ (if eqb_ℤ version (pos 0) then scan_integer o else version)
unfolding scan_integer null_integer
version_lem version o = ground arith

touch_lem :
    (now : ℕ) (version : ℤ) (r : DeviceRow)
    → touched now version (scan_device r) ≡ scan_device (Devices.touch now version r)
unfolding scan_device Devices.touch
touch_lem now version r = rw (version_lem version r.app_version_code) refl

touch-none :
    (now : ℕ) (id : Str) (version : ℤ) (db : Database)
    → select (has_id id) db.devices ≡ none
    → commit db (touch_device_tx now id version db) ≡ (err not_found, db)
unfolding commit touch_device_tx
touch-none now id version db e = ground (arith, affected-zero (has_id id) db.devices e)

touch-some :
    (now : ℕ) (id : Str) (version : ℤ) (db : Database) (r : DeviceRow)
    → select (has_id id) db.devices ≡ some r
    → commit db (touch_device_tx now id version db)
      ≡ (ok tt, record db { devices = update (has_id id) (Devices.touch now version) db.devices })
unfolding commit touch_device_tx
touch-some now id version db r e = ground (arith, affected-pos (has_id id) db.devices {a = r} e)

touch_id :
    (now : ℕ) (version : ℤ) (r : DeviceRow) → (Devices.touch now version r).device_id ≡ r.device_id
unfolding Devices.touch
touch_id now version r = refl

touch_revoked :
    (now : ℕ) (version : ℤ) (r : DeviceRow)
    → r.revoked_at ≢ some 0
    → (Devices.touch now version r).revoked_at ≢ some 0
unfolding Devices.touch
touch_revoked now version r n = n

pub touch-Refines :
    (now : ℕ) (id : Str) (version : ℤ) (m : MemStore) (db : Database)
    → Agrees m db
    → Refines
        (touch_found now id version m (get text_key id m.devices))
        (commit db (touch_device_tx now id version db))
touch-Refines now id version m db a = elim (Option-cases (select (has_id id) db.devices)) [
  | inl e ↦
      rw (no_row _ _ (a.at id) e, touch-none now id version db e)
        (record { result = refl; states = a })
  | inr (r, e) ↦
      let (d, n) = found_row _ _ r (a.at id) e in
      rw (d, touch-some now id version db r e)
        (record {
          result = refl;
          states =
              updated-Agrees id (Devices.touch now version) (touch_id now version) m db r a e
                (touch_revoked now version r n) (touched now version (scan_device r))
                (touch_lem now version r);
        })
]

-- InsertDevice.
scan_integer-null_integer : (n : ℤ) → scan_integer (null_integer n) ≡ n
unfolding scan_integer null_integer
scan_integer-null_integer n = elim (Bool-cases (eqb_ℤ n (pos 0))) [
  | inl t ↦ rw t (sym ((eqb_ℤ_iff n (pos 0)).0 t))
  | inr t ↦ rw t refl
]

scan_device-device_row : (d : Device) → scan_device (device_row d) ≡ d
unfolding scan_device device_row
scan_device-device_row d =
    rw
      (
        scan_integer-null_integer d.app_version_code,
        scan_int-null_int d.last_seen_at,
        scan_int-null_int d.revoked_at,
      )
      refl

null_int-some : (n : ℕ) → null_int n ≢ some 0
unfolding null_int
null_int-some n = elim (Bool-cases (n == 0)) [
  | inl z ↦ rw z (λ e. cc e)
  | inr z ↦ rw z (λ e. let zero_n : n ≡ 0 = cc e in cc (sym z ∙ (==_iff n 0).1 zero_n))
]

new_revoked : (d : Device) → (device_row d).revoked_at ≢ some 0
unfolding device_row
new_revoked d = null_int-some d.revoked_at

new_row :
    (d : Device) (db : Database)
    → select (has_id d.device_id) db.devices ≡ none
    → select (has_id d.device_id) (db.devices ++ device_row d ∷ []) ≡ some (device_row d)
unfolding device_row
new_row d db e =
    select-append (has_id d.device_id) db.devices (device_row d) e
    ∙ ap (λ (x : Bool). if x then some (device_row d) else none) (str_eq_refl d.device_id)

new_apart : (d : Device) (k : Str) → str_eq d.device_id k ≡ false → has_id k (device_row d) ≡ false
unfolding device_row
new_apart d k t = t

new_at :
    (d : Device) (m : MemStore) (db : Database)
    → Agrees m db
    → select (has_id d.device_id) db.devices ≡ none
    → (k : Str)
    → SameDevice
        (get text_key k (set text_key d.device_id d m.devices))
        (select (has_id k) (db.devices ++ device_row d ∷ []))
new_at d m db a e k = elim (Bool-cases (str_eq d.device_id k)) [
  | inl t ↦
      subst
        (λ (x : Str).
          SameDevice (get text_key x (set text_key d.device_id d m.devices))
            (select (has_id x) (db.devices ++ device_row d ∷ [])))
        (str_eq_sound d.device_id k t)
        (rw (new_row d db e) (
          get-set_same d.device_id d m.devices ∙ ap some (sym (scan_device-device_row d)),
          new_revoked d,
        ))
  | inr t ↦
      rw
        (
          select-append_other (has_id k) db.devices (device_row d) (new_apart d k t),
          get-set_other d.device_id k d m.devices (ne_of d.device_id k t),
        )
        (a.at k)
]

new_fresh :
    (d : Device) (db : Database)
    → select (has_id d.device_id) db.devices ≡ none
    → commit db (insert_device_tx d db)
      ≡ (ok tt, record db { devices = db.devices ++ device_row d ∷ [] })
unfolding insert_device_tx commit
new_fresh d db e = rw (commit, insert_device_tx, e) refl

new_taken :
    (d : Device) (db : Database) (r : DeviceRow)
    → select (has_id d.device_id) db.devices ≡ some r
    → commit db (insert_device_tx d db) ≡ (err already_exists, db)
unfolding insert_device_tx commit
new_taken d db r e = rw (commit, insert_device_tx, e) refl

pub insert-Refines :
    (d : Device) (m : MemStore) (db : Database)
    → Agrees m db
    → Refines
        (insert_new_device d m (get text_key d.device_id m.devices))
        (commit db (insert_device_tx d db))
insert-Refines d m db a = elim (Option-cases (select (has_id d.device_id) db.devices)) [
  | inl e ↦
      rw (no_row _ _ (a.at d.device_id) e, new_fresh d db e)
        (record { result = refl; states = record { at = new_at d m db a e } })
  | inr (r, e) ↦
      let (old, n) = found_row _ _ r (a.at d.device_id) e in
      rw (old, new_taken d db r e) (record { result = refl; states = a })
]
