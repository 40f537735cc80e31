-- ===== src/Tests/Auth.antt =====
-- The theorems of pairing, of the limiter and of the codes at concrete requests.
use homesink.Base.{
  ℕ, List, true, ◌+◌, ◌≡◌, ◌≢◌, refl, false, [], ◌∷◌, none, some, Str, codes, length, keep, all,
  ltb, ltb→lt, ◌<◌, All, Bool-cases, inl, inr, ◌≤◌, str_eq, trim_space, arith, select, affected,
}
use homesink.Base.Int.{pos}
use homesink.Core.Errors.{pairing_code_invalid}
use homesink.Store.{Database, CodeRow, DeviceRow, empty, ok, with_read, with_tx, is_not_found}
use homesink.Store.Devices.{insert_device, revoke_device, has_id, after_find}
use homesink.Auth.ServerId.{
  IdEnv, Write, write_all, server_id_key, server_id_prefix, after_set, create_id, after_meta,
  ensure_server_id, ensure_server_id-stable,
}
use homesink.Store.Meta.{meta, found_meta, set_meta, set_meta_tx}
use homesink.Auth.Middleware.{AuthRequest, AuthState, authenticate}
use homesink.Auth.Middleware.Authenticated.{AuthPost, authenticate-AuthPost}
use homesink.Auth.Middleware.Revoked.{NotAs, revoke-NotAs}
use homesink.Store.Codes.{
  used, pairing_code_by_hash, mark_pairing_code_used, delete_pairing_codes_before,
}
use homesink.Auth.Token.{
  valid_token_format, valid_code_format, generate_pairing_code, generate_token, new_id,
}
use homesink.Auth.Token.Generated.{generate_token-valid}
use homesink.Auth.Token.Format.{ValidDrawn, Accepts, generate-valid, draws_cases}
use homesink.Auth.Limiter.{Config, Entry, FailureState, Failures, standing, check_locked, to_ms}
use homesink.Auth.Limiter as Limiter
use homesink.Auth.Limiter.Strikes.{state_of}
use homesink.Auth.Limiter.Lockout.{LockedBy, Served, guesses_lock, check_locked-locked}
use homesink.Auth.Limiter.Sweep.{check_locked-sweep}
use homesink.Auth.Issue.{IssueEnv, issue_code}
use homesink.Auth.Issue.Issued.{IssuePost, issue_code_post}
use homesink.Auth.Pairing.{PairRequest, PairResult, PairEnv, World, pair, device_id_prefix}
use homesink.Auth.Pairing.Outcome.{Post, pair-Post}
use homesink.Auth.Pairing.Spent.{Refused, pair_once}
use homesink.Http.{ServerInfo, handle_pair}
use homesink.Http.Answers.{Answered, handle_pair-Answered}

-- A hash that keeps its input.
abbrev hash : Str → Str
hash s = s

abbrev config : Config
config = record { code_ttl = 600_000_000_000; max_attempts = 3; lockout = 900_000_000_000 }

abbrev code : Str
code = codes "123456"

abbrev ip : Str
ip = codes "10.0.0.2"

abbrev stored_code : CodeRow
stored_code = record { code_hash = code; expires_at = 1000; used_at = none; attempts = 0 }

abbrev world : World
world = record { db = record empty { pairing_codes = stored_code ∷ [] }; failures = [] }

abbrev request : PairRequest
request = record {
  code = code;
  device_name = codes "Pixel";
  platform = codes "android";
  app_version_code = pos 7;
  client_ip = ip;
}

abbrev env : PairEnv
env = record {
  check_now = 5_000_000;
  fail_now = 5_000_000;
  expiry_now = 5_000_000;
  burn_now = 5;
  enrol_now = 5_000_000;
  token_bytes = some (1 ∷ 2 ∷ 3 ∷ []);
  id_bytes = some (4 ∷ 5 ∷ []);
  lookup_fault = false;
  count_fault = false;
  burn_fault = false;
  enrol_fault = false;
}

abbrev answer : PairResult
answer = record {
  token = generate_token (1 ∷ 2 ∷ 3 ∷ []);
  device_id = new_id device_id_prefix (4 ∷ 5 ∷ []);
  paired_at_ms = 5;
}

pair-Post_example :
    Post hash config env request
      (record world { failures = (check_locked env.check_now request.client_ip world.failures).1 })
      (pair hash config env request world)
pair-Post_example = pair-Post hash config env request world

abbrev info : ServerInfo
info = record {
  server_id = codes "srv_1";
  server_name = codes "nas";
  tls_spki_sha256 = [];
  server_time_ms = 5;
}

handle_pair-Answered_example :
    (let (r, w) = handle_pair hash config info env (some request) (codes "10.0.0.2:4711") world in
      Answered hash world.db.devices r w.db.devices)
handle_pair-Answered_example =
    handle_pair-Answered hash config info env (some request) (codes "10.0.0.2:4711") world

abbrev after : World
after = (pair hash config env request world).1

pairs : pair hash config env request world ≡ (ok answer, after)
unfolding pair check_locked str_eq trim_space valid_code_format pairing_code_by_hash used
    mark_pairing_code_used affected insert_device
pairs = refl

pair_once_example : Refused hash config after (pair hash config env request after)
pair_once_example =
    pair_once hash config env env request request world after after answer [] pairs refl tt refl

abbrev issue_env : IssueEnv
issue_env = record {
  now = 5_000_000;
  draws = some 123_456 ∷ some 654_321 ∷ [];
  sweep_fault = false;
  insert_fault = λ attempt. false;
}

issue_code_post_example :
    IssuePost hash
      (to_ms (issue_env.now + config.code_ttl))
      (delete_pairing_codes_before issue_env.sweep_fault (to_ms issue_env.now) world.db).1
      (issue_code hash config issue_env world.db)
issue_code_post_example = issue_code_post hash config issue_env world.db

nobody : standing ip [] ≡ none
unfolding standing select
nobody = refl

guesses_lock_example : LockedBy config ip pairing_code_invalid 1 (2 ∷ 3 ∷ []) []
guesses_lock_example =
    guesses_lock config ip pairing_code_invalid 1 (2 ∷ 3 ∷ []) [] nobody
      (omega arith, (omega arith, tt)) refl

abbrev locked : FailureState
locked = record { count = 3; locked_until = some 9; last_failure = 1 }

abbrev one_locked : Failures
one_locked = record { ip = ip; state = locked } ∷ []

is_locked : state_of ip one_locked ≡ some locked
unfolding standing select str_eq
is_locked = refl

check_locked-locked_example : Served 4 9 ip one_locked (check_locked 4 ip one_locked)
check_locked-locked_example = check_locked-locked 4 9 ip one_locked locked is_locked refl

check_locked-sweep_example :
    (check_locked 6 ip (Limiter.sweep config 4 one_locked)).0 ≡ (check_locked 6 ip one_locked).0
check_locked-sweep_example = check_locked-sweep config 4 6 ip one_locked (nobody, tt) (omega arith)

generate-valid_example : ValidDrawn (generate_pairing_code (some 4_294_967_295 ∷ some 42 ∷ []))
generate-valid_example = generate-valid (some 4_294_967_295 ∷ some 42 ∷ [])

draws_cases_example : Accepts 4_294_967_295 (some 42 ∷ [])
draws_cases_example = draws_cases 4_294_967_295 (some 42 ∷ [])

abbrev id_env : IdEnv
id_env = record { read_fault = false; id_bytes = some (1 ∷ 2 ∷ []); write_fault = false }

abbrev server_id : Str
server_id = new_id server_id_prefix (1 ∷ 2 ∷ [])

abbrev named : Database
named = (ensure_server_id id_env empty).1

first_id : ensure_server_id id_env empty ≡ (ok server_id, named)
unfolding ensure_server_id after_meta meta with_read found_meta select is_not_found str_eq create_id
    after_set set_meta with_tx set_meta_tx
first_id = refl

abbrev tls_write : Write
tls_write = record { fault = false; key = codes "tls_spki"; value = codes "ab" }

other_key : tls_write.key ≢ server_id_key
other_key e = cc e

ensure_server_id-stable_example :
    ensure_server_id id_env (write_all (tls_write ∷ []) named)
    ≡ (ok server_id, write_all (tls_write ∷ []) named)
ensure_server_id-stable_example =
    ensure_server_id-stable id_env id_env empty named server_id (tls_write ∷ []) first_id
      (other_key, tt) refl

abbrev phone : DeviceRow
phone = record {
  device_id = codes "dev_1";
  name = codes "Pixel";
  token_hash = codes "hs_AAAAAAAAAAAAAAAAAAAAAAAAAAAAAAAAAAAAAAAAAAA";
  platform = codes "android";
  app_version_code = none;
  created_at = 1;
  last_seen_at = none;
  revoked_at = none;
}

abbrev one_phone : Database
one_phone = record empty { devices = phone ∷ [] }

abbrev bearer : AuthRequest
bearer = record {
  authorization = codes "Bearer hs_AAAAAAAAAAAAAAAAAAAAAAAAAAAAAAAAAAAAAAAAAAA";
  client_version = codes "7/1.0";
  now = 5_000_000;
  store_now = 5;
  lookup_fault = false;
  touch_fault = false;
}

abbrev serving : Database → AuthState
serving db = record { db = db; last_touch = [] }

authenticate-AuthPost_example :
    AuthPost hash 60_000_000_000 bearer
      (serving one_phone)
      (authenticate hash 60_000_000_000 bearer (serving one_phone))
authenticate-AuthPost_example = authenticate-AuthPost hash 60_000_000_000 bearer (serving one_phone)

abbrev revoked_phone : Database
revoked_phone = (revoke_device false 9 (codes "dev_1") one_phone).1

revokes : revoke_device false 9 (codes "dev_1") one_phone ≡ (ok tt, revoked_phone)
unfolding revoke_device after_find select str_eq
revokes = refl

one_row : length (keep (has_id (codes "dev_1")) one_phone.devices) ≤ 1
unfolding str_eq
one_row = omega arith

revoke-NotAs_example :
    NotAs hash 60_000_000_000
      (codes "dev_1")
      (authenticate hash 60_000_000_000 bearer (serving revoked_phone))
revoke-NotAs_example =
    revoke-NotAs hash 60_000_000_000 false 9 (codes "dev_1") one_phone revoked_phone bearer
      (serving revoked_phone) one_row revokes refl

abbrev zeros : List ℕ
zeros =
    0 ∷ 0 ∷ 0 ∷ 0 ∷ 0 ∷ 0 ∷ 0 ∷ 0 ∷ 0 ∷ 0 ∷ 0 ∷ 0 ∷ 0 ∷ 0 ∷ 0 ∷ 0 ∷ 0 ∷ 0 ∷ 0 ∷ 0 ∷ 0 ∷ 0 ∷ 0 ∷ 0
    ∷ 0 ∷ 0 ∷ 0 ∷ 0 ∷ 0 ∷ 0 ∷ 0 ∷ 255 ∷ []

small : (b : List ℕ) → all (λ x. ltb x 256) b ≡ true → All (λ x. x < 256) b
small [] h = tt
small (x ∷ b) h = elim (Bool-cases (ltb x 256)) [
  | inl t ↦ (ltb→lt x 256 t, small b (rw t at h))
  | inr t ↦ cc (rw t at h)
]

generate_token-valid_example : valid_token_format (generate_token zeros) ≡ true
generate_token-valid_example = generate_token-valid zeros refl (small zeros refl)
