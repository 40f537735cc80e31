-- ===== src/Auth/Middleware.antt =====
-- backend/internal/auth/middleware.go: bearer tokens, and the throttled touch of a device. A
-- header is its value, `[]` where it is absent.
pub mod Authenticated
pub mod Revoked
use homesink.Base.Int.{pos}
use homesink.Base.{
  ℕ, ◌+◌, ◌*◌, ◌-◌, Bool, true, not, ◌&&◌, ◌||◌, List, [], ◌∷◌, ◌++◌, Option, none, some, Str,
  codes, str_eq, to_lower, trim_space, all, ltb, leb, ◌==◌, if◌then◌else◌, select, delete,
}
use homesink.Base.Decimal.{is_digit}
use homesink.Core.Errors.{Error, unauthorized, internal}
use homesink.Store.{
  Database, Result, ok, err, StoreError, wire, already_exists, failure, is_not_found,
}
use homesink.Store.Devices.{Device, revoked, device_by_token_hash, touch_device}
use homesink.Auth.Token.{valid_token_format, hash_token, verify_token}
use homesink.Auth.Limiter.{to_ms}

-- strings.Cut at one rune: what comes before it, and what comes after it where it occurs.
unfoldable pub cut : ℕ → Str → Str × Option Str
cut sep [] = ([], none)
cut sep (r ∷ s) = let rest = cut sep s in if r == sep then ([], some s) else (r ∷ rest.0, rest.1)

-- BearerToken.
abbrev usable : Str → Option Str
usable [] = none
usable (r ∷ s) = some (r ∷ s)

unfoldable pub after_scheme : Str × Option Str → Option Str
after_scheme (scheme, none) = none
after_scheme (scheme, some rest) =
    if str_eq (to_lower scheme) (codes "bearer") then usable (trim_space rest) else none

unfoldable pub bearer_token : Str → Option Str
bearer_token h = after_scheme (cut 32 h)

-- strconv.ParseInt in base 10 as ClientVersionCode uses it: 0 for what does not parse, does not
-- fit 64 bits, or is negative.
unfoldable pub digits_value : ℕ → Str → ℕ
digits_value acc [] = acc
digits_value acc (r ∷ s) = digits_value (acc * 10 + (r - 48)) s

abbrev unsigned : Str → Str
unsigned [] = []
unsigned (r ∷ s) = if r == 43 then s else r ∷ s

unfoldable pub parse_code : Str → ℕ
parse_code s =
    let body = unsigned s in
    if not (str_eq body [])
      && all is_digit body
      && ltb (digits_value 0 body) 9_223_372_036_854_775_808
    then digits_value 0 body
    else 0

unfoldable pub client_version_code : Str → ℕ
client_version_code h = parse_code (trim_space (cut 47 (trim_space h)).0)

-- lastTouch: when each device was last touched.
pub record Touch : Type 0 where
  pub device_id : Str
  pub at : ℕ

-- The database and lastTouch.
pub record AuthState : Type 0 where
  pub db : Database
  pub last_touch : List Touch

-- The headers of a request, the clocks it meets (the store's in milliseconds), and which calls of
-- the store the driver fails.
pub record AuthRequest : Type 0 where
  pub authorization : Str
  pub client_version : Str
  pub now : ℕ
  pub store_now : ℕ
  pub lookup_fault : Bool
  pub touch_fault : Bool

abbrev pub is_touch : Str → Touch → Bool
is_touch id t = str_eq t.device_id id

-- !seen || now.Sub(last) >= touchEvery.
unfoldable pub is_due : ℕ → ℕ → Option Touch → Bool
is_due touch_every now none = true
is_due touch_every now (some t) = leb (t.at + touch_every) now

unfoldable pub touched : AuthRequest → Device → Result (Unit {0}) → Device
touched req d (err e) = d
touched req d (ok done) =
    let version = client_version_code req.client_version in
    record d {
      last_seen_at = to_ms req.now;
      app_version_code = if version == 0 then d.app_version_code else pos version;
    }

-- touch: the device as the handler sees it, and the state.
unfoldable pub touch : ℕ → AuthRequest → Device → AuthState → Device × AuthState
touch touch_every req d st =
    let due = is_due touch_every req.now (select (is_touch d.device_id) st.last_touch) in
    let r =
      touch_device req.touch_fault req.store_now d.device_id
        (pos (client_version_code req.client_version)) st.db in
    let marked =
      delete (is_touch d.device_id) st.last_touch
      ++ record { device_id = d.device_id; at = req.now } ∷ [] in
    if due then (touched req d r.0, record { db = r.1; last_touch = marked }) else (d, st)

module _ (sha256_hex : Str → Str) (touch_every : ℕ) where
  abbrev pub passed : Device × AuthState → Result Device × AuthState
  passed (d, st) = (ok d, st)

  -- What follows DeviceByTokenHash.
  unfoldable pub after_device :
      AuthRequest → Str → AuthState → Result Device → Result Device × AuthState
  after_device req token st (err e) = (err (if is_not_found e then wire unauthorized else e), st)
  after_device req token st (ok d) =
      if revoked d || not (verify_token sha256_hex token d.token_hash)
      then (err (wire unauthorized), st)
      else passed (touch touch_every req d st)

  unfoldable pub after_token : AuthRequest → AuthState → Option Str → Result Device × AuthState
  after_token req st none = (err (wire unauthorized), st)
  after_token req st (some token) =
      if not (valid_token_format token)
      then (err (wire unauthorized), st)
      else after_device req token st
          (device_by_token_hash req.lookup_fault (hash_token sha256_hex token) st.db)

  unfoldable pub authenticate : AuthRequest → AuthState → Result Device × AuthState
  authenticate req st = after_token req st (bearer_token req.authorization)

  -- The error that Require writes.
  unfoldable pub public_error : StoreError → Error
  public_error (wire e) = e
  public_error already_exists = internal
  public_error failure = internal
