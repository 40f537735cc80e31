-- ===== src/Http/Answers.antt =====
-- What POST /v1/pair answers, against what it has done.
use homesink.Base.{
  ℕ, ◌≡◌, refl, ap, ◌⊎◌, inl, inr, List, [], ◌∷◌, ◌++◌, Option, none, some, Str, arith,
}
use homesink.Core.Errors.{Error, pairing_code_invalid, internal}
use homesink.Store.{DeviceRow, StoreError, wire, already_exists, failure, Result, ok, err}
use homesink.Auth.Limiter.{Config, check_locked}
use homesink.Auth.Pairing.{
  PairRequest, PairResult, PairEnv, World, pair, new_device, device_id_prefix,
}
use homesink.Auth.Pairing.Outcome.{Post, pair-Post}
use homesink.Auth.Pairing.Cause.{Cause-IsContract, IsContract}
use homesink.Store.Devices.{device_row}
use homesink.Auth.Token.{hash_token, generate_token, new_id}
use homesink.Http.{
  PairResponse, ServerInfo, Envelope, error_body, pair_body, Response, write_error, fail, client_ip,
  pair_response, answer, handle_pair,
}

-- The statuses of an error of this operation.
abbrev pub IsErrorStatus : ℕ → Type 0
IsErrorStatus s = (s ≡ 400) ⊎ (s ≡ 410) ⊎ (s ≡ 429) ⊎ (s ≡ 500)

-- Either a device was added, and the answer is 201 with the token whose hash its row has; or none was,
-- and the answer is an error envelope.
pub data Answered (sha256_hex : Str → Str) (before : List DeviceRow) (r : Response)
    (after : List DeviceRow) : Type 0 where
  created :
      (row : DeviceRow) (body : PairResponse)
      → r.status ≡ 201
      → r.body ≡ pair_body body
      → after ≡ before ++ row ∷ []
      → body.device_id ≡ row.device_id
      → hash_token sha256_hex body.token ≡ row.token_hash
      → Answered sha256_hex before r after
  refused :
      (e : Envelope)
      → IsErrorStatus r.status
      → r.body ≡ error_body e
      → after ≡ before
      → Answered sha256_hex before r after

error_status :
    (e : Error)
    → (e.http_status ≡ 400) ⊎ (e.http_status ≡ 410) ⊎ (e.http_status ≡ 429)
    → IsErrorStatus (write_error e).status
unfolding write_error
error_status e h = ground arith

envelope_of : (e : Error) → (env : Envelope) × ((write_error e).body ≡ error_body env)
unfolding write_error
envelope_of e = (_, refl)

internal_status : (write_error internal).status ≡ 500
unfolding write_error
internal_status = refl

fail-refused :
    (sha256_hex : Str → Str) (e : StoreError) (before after : List DeviceRow)
    → IsContract e
    → after ≡ before
    → Answered sha256_hex before (fail e) after
unfolding fail
fail-refused sha256_hex (wire e) before after h same =
    let (env, body) = envelope_of e in refused env (error_status e h) body same
fail-refused sha256_hex already_exists before after h same =
    let (env, body) = envelope_of internal in
    refused env (inr (inr (inr internal_status))) body same
fail-refused sha256_hex failure before after h same =
    let (env, body) = envelope_of internal in
    refused env (inr (inr (inr internal_status))) body same

module _ (sha256_hex : Str → Str) (c : Config) (info : ServerInfo) where
  answer-Answered :
      (env : PairEnv) (req : PairRequest) (w : World) (x : Result PairResult × World)
      → Post sha256_hex c env req w x
      → Answered sha256_hex w.db.devices
          (answer sha256_hex c info x).0
          (answer sha256_hex c info x).1.db.devices
  unfolding pair_response device_row
  answer-Answered env req w (ok res, w') p =
      created
        (device_row
          (new_device sha256_hex c env req (generate_token p.tb) (new_id device_id_prefix p.ib)))
        _ refl refl p.devices p.device_id (ap (hash_token sha256_hex) p.token)
  answer-Answered env req w (err e, w') p =
      fail-refused sha256_hex e w.db.devices w'.db.devices
        (Cause-IsContract (sha256_hex req.code) env req w e p.1) p.0

  -- Whatever the body, the clocks, the random bytes and the driver do: POST /v1/pair answers 201, and
  -- then one device was added, whose row holds the hash of the token in the answer; or it answers 400,
  -- 410, 429 or 500 with the error envelope, and no device was added.
  pub handle_pair-Answered :
      (env : PairEnv) (body : Option PairRequest) (remote : Str) (w : World)
      → (let (r, w') = handle_pair sha256_hex c info env body remote w in
          Answered sha256_hex w.db.devices r w'.db.devices)
  unfolding handle_pair
  handle_pair-Answered env none remote w =
      let (e, body) = envelope_of pairing_code_invalid in
      refused e (error_status pairing_code_invalid (inl refl)) body refl
  handle_pair-Answered env (some req) remote w =
      let req' = record req { client_ip = client_ip remote } in
      let checked = record w {
        failures = (check_locked env.check_now req'.client_ip w.failures).1;
      } in
      answer-Answered env req' checked (pair sha256_hex c env req' w)
        (pair-Post sha256_hex c env req' w)
