-- ===== src/Auth/Pairing/Cause.antt =====
-- What the errors of Pair say of the request and of the surroundings.
use homesink.Base.{
  ℕ, true, false, ◌≤◌, ◌≡◌, ap, ◌⊎◌, inl, inr, ◌||◌, List, [], none, some, Str, str_eq, trim_space,
  select,
}
use homesink.Core.Errors.{Error, pairing_code_invalid, pairing_code_expired, pairing_rate_limited}
use homesink.Store.{CodeRow, DeviceRow, wire, StoreError, already_exists, failure}
use homesink.Store.Codes.{used, has_hash, is_redeemable, scan_code}
use homesink.Store.Devices.{has_id}
use homesink.Auth.Token.{valid_code_format, new_id}
use homesink.Auth.Limiter.{to_ms}
use homesink.Auth.Pairing.{PairRequest, PairEnv, World, device_id_prefix}

-- A read or a write of the store failed, or the random bytes.
pub data Broken (env : PairEnv) : Type 0 where
  look_up_failed : env.lookup_fault ≡ true → Broken env
  burn_failed : env.burn_fault ≡ true → Broken env
  enrol_failed : env.enrol_fault ≡ true → Broken env
  no_token_bytes : env.token_bytes ≡ none → Broken env
  no_id_bytes : env.id_bytes ≡ none → Broken env

-- Why a code is invalid; `h` is its hash.
pub data Invalid (h : Str) (req : PairRequest) (w : World) : Type 0 where
  blank :
      str_eq (trim_space req.device_name) [] || str_eq (trim_space req.platform) [] ≡ true
      → Invalid h req w
  malformed : valid_code_format req.code ≡ false → Invalid h req w
  unknown : select (has_hash h) w.db.pairing_codes ≡ none → Invalid h req w
  spent :
      (row : CodeRow)
      → select (has_hash h) w.db.pairing_codes ≡ some row
      → used (scan_code row) ≡ true
      → Invalid h req w
  lost_race : select (is_redeemable h) w.db.pairing_codes ≡ none → Invalid h req w

-- The three errors of the contract, and what the first two say of the request.
pub data Refusal (h : Str) (env : PairEnv) (req : PairRequest) (w : World) (e : Error)
    : Type 0 where
  invalid : e ≡ pairing_code_invalid → Invalid h req w → Refusal h env req w e
  expired :
      (row : CodeRow)
      → e ≡ pairing_code_expired
      → select (has_hash h) w.db.pairing_codes ≡ some row
      → row.expires_at ≤ to_ms env.expiry_now
      → Refusal h env req w e
  limited : (ms : ℕ) → e ≡ pairing_rate_limited ms → Refusal h env req w e

-- The new device's id is that of a row.
abbrev pub IsTaken : PairEnv → World → Type 0
IsTaken env w =
    (ib : List ℕ) × (env.id_bytes ≡ some ib)
    × ((r : DeviceRow) × (select (has_id (new_id device_id_prefix ib)) w.db.devices ≡ some r))

-- Why Pair fails with an error; `h` is the hash of the code.
abbrev pub Cause : Str → PairEnv → PairRequest → World → StoreError → Type 0
Cause h env req w (wire e) = Refusal h env req w e
Cause h env req w already_exists = IsTaken env w
Cause h env req w failure = Broken env

-- The statuses that the contract lists for this endpoint, or an internal error.
abbrev pub IsContract : StoreError → Type 0
IsContract (wire e) = (e.http_status ≡ 400) ⊎ (e.http_status ≡ 410) ⊎ (e.http_status ≡ 429)
IsContract already_exists = Unit
IsContract failure = Unit

pub Cause-IsContract :
    (h : Str) (env : PairEnv) (req : PairRequest) (w : World) (e : StoreError)
    → Cause h env req w e
    → IsContract e
Cause-IsContract h env req w (wire e) (invalid same why) =
    inl (ap (λ (x : Error). x.http_status) same)
Cause-IsContract h env req w (wire e) (expired row same found old) =
    inr (inl (ap (λ (x : Error). x.http_status) same))
Cause-IsContract h env req w (wire e) (limited ms same) =
    inr (inr (ap (λ (x : Error). x.http_status) same))
Cause-IsContract h env req w already_exists p = tt
Cause-IsContract h env req w failure p = tt

abbrev pub EnrolCause : PairEnv → World → StoreError → Type 0
EnrolCause env w (wire e) = ⊥
EnrolCause env w already_exists = IsTaken env w
EnrolCause env w failure = Broken env
