-- ===== src/Http.antt =====
-- backend/internal/httpapi: the pairing and device handlers of handlers_pair.go, and writeError, the
-- status recorder, request ids and clientIP of middleware.go. A response is its status and what its
-- JSON body encodes; encoding/json gives the handler a request (the zero value for an empty body), or
-- finds the body unreadable.
pub mod Answers
use homesink.Base.Int.{ℤ}
use homesink.Base.{
  ℕ, ◌+◌, Bool, true, false, not, ◌&&◌, ◌||◌, List, [], ◌∷◌, map, keep, Option, none, some, Str,
  str_eq, len, all, ltb, leb, ◌==◌, if◌then◌else◌,
}
use homesink.Core.Errors.{Error, Detail, pairing_code_invalid, internal}
use homesink.Store.{Database, StoreError, wire, already_exists, failure, Result, ok, err}
use homesink.Store.Devices.{Device, revoked, list_devices, revoke_device}
use homesink.Auth.Limiter.{Config}
use homesink.Auth.Pairing.{PairRequest, PairResult, PairEnv, World, pair}
use homesink.Config.Address.{split_host_port}

pub record PairResponse : Type 0 where
  pub token : Str
  pub device_id : Str
  pub server_id : Str
  pub server_name : Str
  pub tls_spki_sha256 : Str
  pub server_time_ms : ℕ

-- A version code of 0 is left out of the JSON.
pub record DeviceResponse : Type 0 where
  pub device_id : Str
  pub name : Str
  pub last_seen_ms : ℕ
  pub app_version_code : ℤ
  pub current : Bool

pub record Envelope : Type 0 where
  pub code : Str
  pub message : Str
  pub retryable : Bool
  pub details : Option (List (Str × Detail))

pub data Body : Type 0 where
  no_body : Body
  error_body : Envelope → Body
  pair_body : PairResponse → Body
  devices_body : List DeviceResponse → Body

pub record Response : Type 0 where
  pub status : ℕ
  pub body : Body

-- writeError.
abbrev details_of : List (Str × Detail) → Option (List (Str × Detail))
details_of [] = none
details_of (d ∷ ds) = some (d ∷ ds)

unfoldable pub write_error : Error → Response
write_error e = record {
  status = if e.http_status == 0 then 500 else e.http_status;
  body = error_body (record {
    code = e.code;
    message = e.message;
    retryable = e.retryable;
    details = details_of e.details;
  });
}

-- (h *pairingHandlers) fail: errors.As, then the envelope.
unfoldable pub fail : StoreError → Response
unfolding write_error
fail (wire e) = write_error e
fail already_exists = write_error internal
fail failure = write_error internal

-- What PairingDeps holds of the server, with the clock at this request.
pub record ServerInfo : Type 0 where
  pub server_id : Str
  pub server_name : Str
  pub tls_spki_sha256 : Str
  pub server_time_ms : ℕ

-- clientIP.
abbrev host_or : Str → Option (Str × Str) → Str
host_or remote none = remote
host_or remote (some (host, port)) = host

unfoldable pub client_ip : Str → Str
unfolding split_host_port
client_ip remote = host_or remote (split_host_port remote)

module _ (sha256_hex : Str → Str) (c : Config) (info : ServerInfo) where
  unfoldable pub pair_response : PairResult → Response
  pair_response res = record {
    status = 201;
    body = pair_body (record {
      token = res.token;
      device_id = res.device_id;
      server_id = info.server_id;
      server_name = info.server_name;
      tls_spki_sha256 = info.tls_spki_sha256;
      server_time_ms = info.server_time_ms;
    });
  }

  abbrev pub answer : Result PairResult × World → Response × World
  answer (ok res, w) = (pair_response res, w)
  answer (err e, w) = (fail e, w)

  -- POST /v1/pair: the decoded body, none where it is unreadable, and the remote address.
  unfoldable pub handle_pair : PairEnv → Option PairRequest → Str → World → Response × World
  unfolding pair write_error fail pair_response client_ip
  handle_pair env none remote w = (write_error pairing_code_invalid, w)
  handle_pair env (some req) remote w =
      answer (pair sha256_hex c env (record req { client_ip = client_ip remote }) w)

-- GET /v1/devices.
abbrev device_response : Str → Device → DeviceResponse
device_response caller d = record {
  device_id = d.device_id;
  name = d.name;
  last_seen_ms = d.last_seen_at;
  app_version_code = d.app_version_code;
  current = str_eq caller d.device_id;
}

abbrev listed : Str → Result (List Device) → Response
listed caller (err e) = fail e
listed caller (ok ds) = record {
  status = 200;
  body = devices_body (map (device_response caller) (keep (λ d. not (revoked d)) ds));
}

unfoldable pub handle_list_devices : Bool → Device → Database → Response
unfolding list_devices fail revoked str_eq
handle_list_devices fault caller db = listed caller.device_id (list_devices fault db)

-- DELETE /v1/devices/{deviceId}.
abbrev revoke_answer : Result (Unit {0}) × Database → Response × Database
revoke_answer (err e, db) = (fail e, db)
revoke_answer (ok done, db) = (record { status = 204; body = no_body }, db)

unfoldable pub handle_revoke_device : Bool → ℕ → Str → Database → Response × Database
unfolding revoke_device fail
handle_revoke_device fault now id db = revoke_answer (revoke_device fault now id db)

-- validRequestID.
abbrev is_id_rune : ℕ → Bool
is_id_rune r =
    (leb b'a' r && leb r b'z')
    || ((leb b'A' r && leb r b'Z') || ((leb b'0' r && leb r b'9') || ((r == 45) || (r == 95))))

unfoldable pub valid_request_id : Str → Bool
unfolding len
valid_request_id s = if ltb (len s) 8 || ltb 128 (len s) then false else all is_id_rune s

-- statusRecorder.
pub record StatusRecorder : Type 0 where
  pub status : ℕ
  pub written : ℕ
  pub wrote : Bool

unfoldable pub write_header : ℕ → StatusRecorder → StatusRecorder
write_header code rec = if rec.wrote then rec else record rec { wrote = true; status = code }

-- `n` is the number of bytes that the underlying writer took.
unfoldable pub write_body : ℕ → StatusRecorder → StatusRecorder
unfolding write_header
write_body n rec =
    let started = if rec.wrote then rec else write_header 200 rec in
    record started { written = started.written + n }
