-- ===== src/Auth/Middleware/Revoked.antt =====
-- The middleware on a device that has been revoked.
use homesink.Base.{
  ℕ, ◌≤◌, ◌≡◌, refl, ap, subst, ◌∙◌, inl, inr, Bool, true, false, ◌&&◌, List, [], ◌∷◌, Option, none,
  some, Str, str_eq, arith, length, keep, select, Bool-cases,
}
use homesink.Base.Table.{select_sound, select-update_cleared, select-All, All_of_select-none}
use homesink.Store.{Database, DeviceRow, Result, ok, err, with_tx, commit}
use homesink.Store.Devices.{
  Device, has_id, is_null, has_live_token, revoke_device, revoke_device_tx, after_find, revoke,
}
use homesink.Auth.Middleware.{AuthRequest, AuthState, authenticate}
use homesink.Auth.Middleware.Authenticated.{AuthPost, authenticate-AuthPost}

kept-none :
    (p q : DeviceRow → Bool) (rows : List DeviceRow)
    → length (keep p rows) ≤ 0
    → select (λ x. p x && q x) rows ≡ none
unfolding select
kept-none p q [] n = refl
kept-none p q (x ∷ rows) n = elim (Bool-cases (p x)) [
  | inl t ↦ absurd (length-pos x (keep p rows) (rw t at n))
  | inr t ↦ rw t (kept-none p q rows (rw t at n))
]
  where
    length-pos : (x : DeviceRow) (xs : List DeviceRow) → length (x ∷ xs) ≤ 0 → ⊥
    length-pos x xs h = omega arith

-- The one row that `p` selects is not of `q`, so no row is of both.
only-none :
    (p q : DeviceRow → Bool) (rows : List DeviceRow) {r : DeviceRow}
    → length (keep p rows) ≤ 1
    → select p rows ≡ some r
    → q r ≡ false
    → select (λ x. p x && q x) rows ≡ none
unfolding select
only-none p q [] n e h = refl
only-none p q (x ∷ rows) {r} n e h = elim (Bool-cases (p x)) [
  | inl t ↦
      let same : x ≡ r = some_row (rw t at e) in
      let alone : q x ≡ false = ap q same ∙ h in
      rw (t, alone) (kept-none p q rows (shorter x (keep p rows) (rw t at n)))
  | inr t ↦ rw t (only-none p q rows {r = r} (rw t at n) (rw t at e) h)
]
  where
    some_row : {a b : DeviceRow} → some a ≡ some b → a ≡ b
    some_row e = cc

    shorter : (x : DeviceRow) (xs : List DeviceRow) → length (x ∷ xs) ≤ 1 → length xs ≤ 0
    shorter x xs h = omega arith

abbrev is_active : Str → DeviceRow → Bool
is_active id r = has_id id r && is_null r.revoked_at

-- The devices table after a transaction that succeeded.
abbrev Shut : Str → Result (Unit {0}) × Database → Type 0
Shut id (ok done, db) = select (is_active id) db.devices ≡ none
Shut id (err e, db) = Unit

revoke-Shut :
    (now : ℕ) (id : Str) (db : Database) (o : Option DeviceRow)
    → length (keep (has_id id) db.devices) ≤ 1
    → select (has_id id) db.devices ≡ o
    → Shut id (commit db (after_find now id db o))
unfolding commit after_find
revoke-Shut now id db none n e = tt
revoke-Shut now id db (some r) n e = elim (Bool-cases (is_null r.revoked_at)) [
  | inl live ↦ rw live (
      select-update_cleared (has_id id) (is_active id) (revoke now) db.devices (λ x h. ground arith)
        (λ x h. ground arith))
  | inr dead ↦
      rw dead (only-none (has_id id) (λ x. is_null x.revoked_at) db.devices {r = r} n e dead)
]

module _ (sha256_hex : Str → Str) (touch_every : ℕ) where
  -- Not let in as the device `id`.
  abbrev pub NotAs : Str → Result Device × AuthState → Type 0
  NotAs id (ok d, st) = str_eq d.device_id id ≡ false
  NotAs id (err e, st) = Unit

  active_row :
      (id h : Str) (rows : List DeviceRow) (r : DeviceRow)
      → select (is_active id) rows ≡ none
      → select (has_live_token h) rows ≡ some r
      → str_eq r.device_id id ≡ false
  active_row id h rows r shut found =
      let live : has_live_token h r ≡ true = select_sound (has_live_token h) rows {a = r} found in
      let other : is_active id r ≡ false =
        select-All (λ x. is_active id x ≡ false) (has_live_token h) rows {a = r}
          (All_of_select-none (is_active id) rows shut) found in
      ground arith

  shut-NotAs :
      (id : Str) (req : AuthRequest) (st : AuthState) (r : Result Device × AuthState)
      → select (is_active id) st.db.devices ≡ none
      → AuthPost sha256_hex touch_every req st r
      → NotAs id r
  shut-NotAs id req st (err e, st') shut p = tt
  shut-NotAs id req st (ok d, st') shut p =
      ap (λ (i : Str). str_eq i id) p.mine
      ∙ active_row id (sha256_hex p.token) st.db.devices p.row shut p.found

  -- Once RevokeDevice has succeeded on a device, whose id is of one row at most, no request that
  -- finds the table so is let in as that device, whatever its headers.
  pub revoke-NotAs :
      (fault : Bool) (now : ℕ) (id : Str) (db db' : Database) (req : AuthRequest) (st : AuthState)
      → length (keep (has_id id) db.devices) ≤ 1
      → revoke_device fault now id db ≡ (ok tt, db')
      → st.db.devices ≡ db'.devices
      → NotAs id (authenticate sha256_hex touch_every req st)
  unfolding revoke_device with_tx revoke_device_tx
  revoke-NotAs true now id db db' req st n e same = cc
  revoke-NotAs false now id db db' req st n e same =
      let shut : select (is_active id) db'.devices ≡ none =
        subst (Shut id) e (revoke-Shut now id db (select (has_id id) db.devices) n refl) in
      shut-NotAs id req st (authenticate sha256_hex touch_every req st) (rw same shut)
        (authenticate-AuthPost sha256_hex touch_every req st)
