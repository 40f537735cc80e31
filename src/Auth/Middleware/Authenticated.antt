-- ===== src/Auth/Middleware/Authenticated.antt =====
-- Whom the middleware lets in.
use homesink.Base.{
  ℕ, ◌≡◌, refl, ◌⊎◌, inl, inr, Bool, true, false, not, ◌||◌, Option, none, some, Str, str_eq,
  select, Bool-cases,
}
use homesink.Core.Errors.{unauthorized}
use homesink.Store.{DeviceRow, Result, ok, err, wire, failure, is_not_found, with_read}
use homesink.Store.Devices.{
  Device, revoked, has_live_token, scan_device, found_device, device_by_token_hash,
}
use homesink.Auth.Token.{valid_token_format, verify_token}
use homesink.Auth.Middleware.{
  AuthRequest, AuthState, bearer_token, touch, touched, is_due, is_touch, after_device, after_token,
  authenticate,
}

touched_keeps_id :
    (req : AuthRequest) (d : Device) (r : Result (Unit {0}))
    → (touched req d r).device_id ≡ d.device_id
unfolding touched
touched_keeps_id req d (ok done) = refl
touched_keeps_id req d (err e) = refl

touch_keeps_id :
    (touch_every : ℕ) (req : AuthRequest) (d : Device) (st : AuthState)
    → (touch touch_every req d st).0.device_id ≡ d.device_id
unfolding touch
touch_keeps_id touch_every req d st =
    elim (Bool-cases (is_due touch_every req.now (select (is_touch d.device_id) st.last_touch))) [
      | inl due ↦ rw due (touched_keeps_id req d _)
      | inr early ↦ rw early refl
    ]

module _ (sha256_hex : Str → Str) (touch_every : ℕ) where
  -- The row behind a request that was let in: it is live, and has the hash of the bearer token.
  pub record LetIn (req : AuthRequest) (st : AuthState) (d : Device) : Type 0 where
    pub token : Str
    pub header : bearer_token req.authorization ≡ some token
    pub formed : valid_token_format token ≡ true
    pub row : DeviceRow
    pub found : select (has_live_token (sha256_hex token)) st.db.devices ≡ some row
    pub mine : d.device_id ≡ row.device_id

  -- A device let in, or an error that leaves the state: 401, or one that is not for the client.
  abbrev pub AuthPost : AuthRequest → AuthState → Result Device × AuthState → Type 0
  AuthPost req st (ok d, st') = LetIn req st d
  AuthPost req st (err e, st') = (st' ≡ st) × ((e ≡ wire unauthorized) ⊎ (e ≡ failure))

  after_device-AuthPost :
      (req : AuthRequest) (token : Str) (st : AuthState) (o : Option DeviceRow)
      → bearer_token req.authorization ≡ some token
      → valid_token_format token ≡ true
      → select (has_live_token (sha256_hex token)) st.db.devices ≡ o
      → AuthPost req st (after_device sha256_hex touch_every req token st (found_device o))
  unfolding after_device found_device is_not_found str_eq
  after_device-AuthPost req token st none b v f = (refl, inl refl)
  after_device-AuthPost req token st (some r) b v f =
      elim (Bool-cases (
        revoked (scan_device r)
        || not (verify_token sha256_hex token (scan_device r).token_hash))) [
          | inl refused ↦ rw refused (refl, inl refl)
          | inr live ↦ rw live (record {
            token = token;
            header = b;
            formed = v;
            row = r;
            found = f;
            mine = touch_keeps_id touch_every req (scan_device r) st;
          })
        ]

  look_up-AuthPost :
      (fault : Bool) (req : AuthRequest) (token : Str) (st : AuthState)
      → bearer_token req.authorization ≡ some token
      → valid_token_format token ≡ true
      → AuthPost req st (
          after_device sha256_hex touch_every req token st
            (device_by_token_hash fault (sha256_hex token) st.db))
  unfolding device_by_token_hash with_read after_device is_not_found
  look_up-AuthPost true req token st b v = (refl, inr refl)
  look_up-AuthPost false req token st b v =
      after_device-AuthPost req token st (select (has_live_token (sha256_hex token)) st.db.devices)
        b v refl

  after_token-AuthPost :
      (req : AuthRequest) (st : AuthState) (o : Option Str)
      → bearer_token req.authorization ≡ o
      → AuthPost req st (after_token sha256_hex touch_every req st o)
  unfolding after_token
  after_token-AuthPost req st none b = (refl, inl refl)
  after_token-AuthPost req st (some token) b = elim (Bool-cases (valid_token_format token)) [
    | inl formed ↦ rw formed (look_up-AuthPost req.lookup_fault req token st b formed)
    | inr malformed ↦ rw malformed (refl, inl refl)
  ]

  -- A request is let in only with a well-formed bearer token whose hash a live row of devices has,
  -- as that row's device; any other request leaves the state as it was, and is answered 401 or has
  -- met a driver fault.
  pub authenticate-AuthPost :
      (req : AuthRequest) (st : AuthState)
      → AuthPost req st (authenticate sha256_hex touch_every req st)
  unfolding authenticate
  authenticate-AuthPost req st = after_token-AuthPost req st (bearer_token req.authorization) refl
