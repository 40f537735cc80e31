-- ===== src/Auth/Pairing.antt =====
-- Pair of backend/internal/auth/pairing.go.
pub mod Calls
pub mod Cause
pub mod Outcome
pub mod Spent
use homesink.Base.Int.{ℤ}
use homesink.Base.{
  ℕ, Bool, not, ◌||◌, List, [], take, Option, none, some, Str, codes, str_eq, trim_space, leb,
  if◌then◌else◌,
}
use homesink.Core.Errors.{Error, pairing_code_invalid, pairing_code_expired}
use homesink.Store.{Database, Result, ok, err, wire, failure, is_already_exists, is_not_found}
use homesink.Store.Codes.{
  PairingCode, used, pairing_code_by_hash, mark_pairing_code_used, increment_pairing_code_attempts,
}
use homesink.Store.Devices.{Device, insert_device}
use homesink.Auth.Token.{valid_code_format, hash_pairing_code, hash_token, generate_token, new_id}
use homesink.Auth.Limiter.{Config, Failures, check_locked, failed, clear_failures, to_ms}

-- maxDeviceNameLen and deviceIDPrefix.
abbrev pub max_device_name_len : ℕ
max_device_name_len = 64

abbrev pub device_id_prefix : Str
device_id_prefix = codes "dev_"

-- truncateRunes.
unfoldable pub truncate_runes : Str → ℕ → Str
truncate_runes s n = take n s

pub record PairRequest : Type 0 where
  pub code : Str
  pub device_name : Str
  pub platform : Str
  pub app_version_code : ℤ
  pub client_ip : Str

pub record PairResult : Type 0 where
  pub token : Str
  pub device_id : Str
  pub paired_at_ms : ℕ

-- What the surroundings supply to one Pair: each reading of a clock (the burn by the store's, in
-- milliseconds), the random bytes (`none` where the read fails), and which calls of the store the
-- driver fails.
pub record PairEnv : Type 0 where
  pub check_now : ℕ
  pub fail_now : ℕ
  pub expiry_now : ℕ
  pub burn_now : ℕ
  pub enrol_now : ℕ
  pub token_bytes : Option (List ℕ)
  pub id_bytes : Option (List ℕ)
  pub lookup_fault : Bool
  pub count_fault : Bool
  pub burn_fault : Bool
  pub enrol_fault : Bool

-- The database and the limiter's map.
pub record World : Type 0 where
  pub db : Database
  pub failures : Failures

module _ (sha256_hex : Str → Str) (c : Config) where
  -- `return nil, p.failed(ctx, req.ClientIP, reason, want)`.
  unfoldable pub reject : PairEnv → Str → Error → World → Result PairResult × World
  reject env ip want w =
      let (e, m) = failed c env.fail_now ip want w.failures in
      (err (wire e), record w { failures = m })

  -- countCodeAttempt: a failure to count changes nothing.
  unfoldable pub count_code_attempt : PairEnv → Str → World → World
  count_code_attempt env h w = record w {
    db = (increment_pairing_code_attempts env.count_fault h w.db).1;
  }

  abbrev pub new_device : PairEnv → PairRequest → Str → Str → Device
  new_device env req token id = record {
    device_id = id;
    name = truncate_runes (trim_space req.device_name) max_device_name_len;
    token_hash = hash_token sha256_hex token;
    platform = trim_space req.platform;
    app_version_code = req.app_version_code;
    created_at = to_ms env.enrol_now;
    last_seen_at = 0;
    revoked_at = 0;
  }

  -- What follows InsertDevice.
  unfoldable pub settle :
      PairEnv
      → PairRequest
      → Str
      → Str
      → World
      → Result (Unit {0}) × Database
      → Result PairResult × World
  settle env req token id w (err e, db) = (err e, record w { db = db })
  settle env req token id w (ok _, db) = (
    ok (record { token = token; device_id = id; paired_at_ms = to_ms env.enrol_now }),
    record { db = db; failures = clear_failures req.client_ip w.failures },
  )

  -- GenerateToken, newID and InsertDevice, by the random bytes read.
  unfoldable pub mint :
      PairEnv → PairRequest → World → Option (List ℕ) → Option (List ℕ) → Result PairResult × World
  unfolding settle truncate_runes
  mint env req w none ib = (err failure, w)
  mint env req w (some tb) none = (err failure, w)
  mint env req w (some tb) (some ib) =
      let token = generate_token tb in
      let id = new_id device_id_prefix ib in
      settle env req token id w (insert_device env.enrol_fault (new_device env req token id) w.db)

  unfoldable pub enrol : PairEnv → PairRequest → World → Result PairResult × World
  unfolding mint
  enrol env req w = mint env req w env.token_bytes env.id_bytes

  -- What follows MarkPairingCodeUsed.
  unfoldable pub after_burn :
      PairEnv → PairRequest → World → Result (Unit {0}) × Database → Result PairResult × World
  unfolding enrol reject
  after_burn env req w (ok _, db) = enrol env req (record w { db = db })
  after_burn env req w (err e, db) =
      if is_already_exists e || is_not_found e
      then reject env req.client_ip pairing_code_invalid (record w { db = db })
      else (err e, record w { db = db })

  unfoldable pub burn_and_enrol : PairEnv → PairRequest → Str → World → Result PairResult × World
  unfolding after_burn
  burn_and_enrol env req h w =
      after_burn env req w (mark_pairing_code_used env.burn_fault env.burn_now h w.db)

  -- The code row was found: used, expired, or to be burned.
  unfoldable pub redeem :
      PairEnv → PairRequest → Str → PairingCode → World → Result PairResult × World
  unfolding burn_and_enrol count_code_attempt
  redeem env req h pc w =
      if used pc
      then reject env req.client_ip pairing_code_invalid (count_code_attempt env h w)
      else if leb pc.expires_at_ms (to_ms env.expiry_now)
      then reject env req.client_ip pairing_code_expired (count_code_attempt env h w)
      else burn_and_enrol env req h w

  -- What follows PairingCodeByHash.
  unfoldable pub after_look_up :
      PairEnv → PairRequest → Str → World → Result PairingCode → Result PairResult × World
  unfolding redeem
  after_look_up env req h w (ok pc) = redeem env req h pc w
  after_look_up env req h w (err e) =
      if is_not_found e then reject env req.client_ip pairing_code_invalid w else (err e, w)

  unfoldable pub look_up : PairEnv → PairRequest → World → Result PairResult × World
  unfolding after_look_up
  look_up env req w =
      let h = hash_pairing_code sha256_hex req.code in
      after_look_up env req h w (pairing_code_by_hash env.lookup_fault h w.db)

  -- The request itself: a blank name or platform, a malformed code, or a code to look up.
  unfoldable pub admit : PairEnv → PairRequest → World → Result PairResult × World
  unfolding look_up
  admit env req w =
      if str_eq (trim_space req.device_name) [] || str_eq (trim_space req.platform) []
      then (err (wire pairing_code_invalid), w)
      else if not (valid_code_format req.code)
      then reject env req.client_ip pairing_code_invalid w
      else look_up env req w

  -- What follows checkLocked.
  unfoldable pub after_check :
      PairEnv → PairRequest → World → Option Error × Failures → Result PairResult × World
  unfolding admit
  after_check env req w (some e, m) = (err (wire e), record w { failures = m })
  after_check env req w (none, m) = admit env req (record w { failures = m })

  unfoldable pub pair : PairEnv → PairRequest → World → Result PairResult × World
  unfolding after_check
  pair env req w = after_check env req w (check_locked env.check_now req.client_ip w.failures)
