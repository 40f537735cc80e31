-- ===== src/Auth/Pairing/Calls.antt =====
-- What each call that Pair makes can come to.
use homesink.Base.{
  ℕ, ◌≡◌, refl, ◌⊎◌, inl, inr, Bool, true, false, ◌||◌, [], ◌∷◌, ◌++◌, Option, none, some, Str,
  str_eq, arith, select, update, Bool-cases, Option-cases,
}
use homesink.Base.Table.{affected-zero}
use homesink.Core.Errors.{Error, pairing_rate_limited}
use homesink.Store.{
  Database, CodeRow, DeviceRow, ok, err, StoreError, failure, already_exists, not_found,
  is_already_exists, is_not_found,
}
use homesink.Store.Codes.{
  has_hash, is_redeemable, burn, scan_code, pairing_code_by_hash, mark_pairing_code_used,
}
use homesink.Store.Codes.SingleUse.{mark_succeeds}
use homesink.Store.Devices.{Device, device_row, has_id, insert_device}
use homesink.Auth.Limiter.{judge, standing, before, remaining, Failures, check_locked}

-- An insertion that fails leaves the database; one that succeeds appends the row.
pub insert_device-cases :
    (fault : Bool) (d : Device) (db : Database)
    → ((e : StoreError) × (((e ≡ failure) × (fault ≡ true))
          ⊎ ((e ≡ already_exists)
              × ((r : DeviceRow) × (select (has_id d.device_id) db.devices ≡ some r))))
        × (insert_device fault d db ≡ (err e, db)))
      ⊎ (insert_device fault d db
          ≡ (ok tt, record db { devices = db.devices ++ device_row d ∷ [] }))
unfolding insert_device
insert_device-cases true d db = inl (failure, inl (refl, refl), refl)
insert_device-cases false d db = elim (Option-cases (select (has_id d.device_id) db.devices)) [
  | inl e ↦ inr (ground arith)
  | inr (r, e) ↦ inl (already_exists, inr (refl, (r, e)), ground arith)
]

pub mark-cases :
    (fault : Bool) (now : ℕ) (h : Str) (db : Database)
    → ((e : StoreError) × (((is_already_exists e || is_not_found e ≡ true)
            × (select (is_redeemable h) db.pairing_codes ≡ none))
          ⊎ ((e ≡ failure) × (fault ≡ true)))
        × (mark_pairing_code_used fault now h db ≡ (err e, db)))
      ⊎ ((r : CodeRow) × (select (is_redeemable h) db.pairing_codes ≡ some r)
          × (mark_pairing_code_used fault now h db ≡ (
            ok tt,
            record db { pairing_codes = update (is_redeemable h) (burn now) db.pairing_codes },
          )))
unfolding mark_pairing_code_used is_not_found is_already_exists str_eq
mark-cases true now h db = inl (failure, inr (refl, refl), refl)
mark-cases false now h db = elim (Option-cases (select (is_redeemable h) db.pairing_codes)) [
  | inr (r, e) ↦ inr (r, e, mark_succeeds now h db {r = r} e)
  | inl e ↦ elim (Option-cases (select (has_hash h) db.pairing_codes)) [
    | inl e' ↦ inl (
      not_found,
      inl (refl, e),
      ground (arith, affected-zero (is_redeemable h) db.pairing_codes e),
    )
    | inr (r, e') ↦ inl (
      already_exists,
      inl (refl, e),
      ground (arith, affected-zero (is_redeemable h) db.pairing_codes e),
    )
  ]
]

pub look_up-cases :
    (fault : Bool) (h : Str) (db : Database)
    → ((e : StoreError) × (((is_not_found e ≡ true) × (select (has_hash h) db.pairing_codes ≡ none))
          ⊎ ((e ≡ failure) × (fault ≡ true)))
        × (pairing_code_by_hash fault h db ≡ err e))
      ⊎ ((r : CodeRow) × (select (has_hash h) db.pairing_codes ≡ some r)
          × (pairing_code_by_hash fault h db ≡ ok (scan_code r)))
unfolding pairing_code_by_hash is_not_found str_eq
look_up-cases true h db = inl (failure, inr (refl, refl), refl)
look_up-cases false h db = elim (Option-cases (select (has_hash h) db.pairing_codes)) [
  | inl e ↦ inl (not_found, inl (refl, e), rw e)
  | inr (r, e) ↦ inr (r, e, rw e)
]

abbrev rate_limited : ℕ → Option ℕ → Error
rate_limited now until = pairing_rate_limited (remaining now until)

pub check_locked-limited :
    (now : ℕ) (ip : Str) (m : Failures)
    → ((check_locked now ip m).0 ≡ none)
      ⊎ ((e : Error) × ((check_locked now ip m).0 ≡ some e)
          × ((ms : ℕ) × (e ≡ pairing_rate_limited ms)))
unfolding check_locked judge
check_locked-limited now ip m = elim (Option-cases (standing ip m)) [
  | inl e ↦ inl (rw e)
  | inr (x, e) ↦ rw e (elim (Bool-cases (before now x.state.locked_until)) [
    | inl locked ↦ inr (
      rate_limited now x.state.locked_until,
      rw locked,
      (remaining now x.state.locked_until, refl),
    )
    | inr passed ↦ inl (rw passed (ground arith))
  ])
]
