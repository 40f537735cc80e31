-- ===== src/Auth/Pairing/Spent.antt =====
-- Pair on a code that has paired a device.
use homesink.Base.{◌≡◌, List, [], ◌∷◌, Str, arith, All, subst}
use homesink.Base.Table.{select-update_cleared}
use homesink.Store.{Database, ok, err}
use homesink.Store.Codes.{is_redeemable, burn}
use homesink.Store.Codes.SingleUse.{Call, step, Keeps, IsSpent, step-IsSpent}
use homesink.Auth.Limiter.{Config, check_locked}
use homesink.Auth.Pairing.{PairRequest, PairResult, PairEnv, World, pair}
use homesink.Auth.Pairing.Outcome.{Step, Paired, Post, pair-Post}

-- The database after a sequence of transactions on pairing_codes.
abbrev pub run : List Call → Database → Database
run [] db = db
run (call ∷ calls) db = run calls (step call db)

run-IsSpent :
    (h : Str) (calls : List Call) (db : Database)
    → All (Keeps h) calls
    → IsSpent h db
    → IsSpent h (run calls db)
run-IsSpent h [] db k s = s
run-IsSpent h (call ∷ calls) db k s =
    run-IsSpent h calls (step call db) k.1 (step-IsSpent call h db k.0 s)

module _ (sha256_hex : Str → Str) (c : Config) where
  -- An error, and no new device.
  abbrev pub Refused : World → Step sha256_hex c → Type 0
  Refused w (ok res, w') = ⊥
  Refused w (err e, w') = w'.db.devices ≡ w.db.devices

  spent-Refused :
      (env : PairEnv) (req : PairRequest) (w : World) (st : Step sha256_hex c)
      → IsSpent (sha256_hex req.code) w.db
      → Post sha256_hex c env req
          (record w { failures = (check_locked env.check_now req.client_ip w.failures).1 })
          st
      → Refused w st
  spent-Refused env req w (ok res, w') s p = cc (p.redeemable, s)
  spent-Refused env req w (err e, w') s p = p.0

  Paired-IsSpent :
      (env : PairEnv) (req : PairRequest) (w w' : World) (res : PairResult)
      → Paired sha256_hex c env req w res w'
      → IsSpent (sha256_hex req.code) w'.db
  Paired-IsSpent env req w w' res p = rw p.burned (
      select-update_cleared (is_redeemable (sha256_hex req.code))
        (is_redeemable (sha256_hex req.code)) (burn env.burn_now) w.db.pairing_codes (λ x e. e)
        (λ x e. ground arith))

  -- After a Pair that succeeded and any transactions on pairing_codes that do not issue the code
  -- anew, every Pair with that code fails and adds no device, whoever asks.
  pub pair_once :
      (env env' : PairEnv) (req req' : PairRequest) (w w' w'' : World) (res : PairResult)
      (calls : List Call)
      → pair sha256_hex c env req w ≡ (ok res, w')
      → req'.code ≡ req.code
      → All (Keeps (sha256_hex req.code)) calls
      → w''.db.pairing_codes ≡ (run calls w'.db).pairing_codes
      → Refused w'' (pair sha256_hex c env' req' w'')
  pair_once env env' req req' w w' w'' res calls paired same k between =
      let spent : IsSpent (sha256_hex req.code) w'.db = Paired-IsSpent env req _ w' res (
        subst
          (λ st.
            Post sha256_hex c env req
              (record w { failures = (check_locked env.check_now req.client_ip w.failures).1 }) st)
          paired (pair-Post sha256_hex c env req w)) in
      spent-Refused env' req' w'' (pair sha256_hex c env' req' w'')
        (rw (same, between) (run-IsSpent (sha256_hex req.code) calls w'.db k spent))
        (pair-Post sha256_hex c env' req' w'')
