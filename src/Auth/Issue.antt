-- ===== src/Auth/Issue.antt =====
-- IssueCode of backend/internal/auth/pairing.go.
pub mod Issued
use homesink.Base.{ℕ, zero, suc, ◌+◌, Bool, List, Option, none, some, Str, if◌then◌else◌}
use homesink.Store.{Database, Result, ok, err, failure, is_already_exists}
use homesink.Store.Codes.{PairingCode, insert_pairing_code, delete_pairing_codes_before}
use homesink.Auth.Token.{
  Drawn, drawn, unreadable, starved, generate_pairing_code, hash_pairing_code,
}
use homesink.Auth.Limiter.{Config, to_ms}

-- issueRetries.
abbrev pub issue_retries : ℕ
issue_retries = 3

pub record Code : Type 0 where
  pub value : Str
  pub expires_at_ms : ℕ

-- What the surroundings supply to one IssueCode: the time, the random draws, and which of its
-- transactions the driver fails (the sweep, and the insertion of each attempt).
pub record IssueEnv : Type 0 where
  pub now : ℕ
  pub draws : List (Option ℕ)
  pub sweep_fault : Bool
  pub insert_fault : ℕ → Bool

module _ (sha256_hex : Str → Str) where
  abbrev pub code_of : Str → ℕ → PairingCode
  code_of value expires_at = record {
    code_hash = hash_pairing_code sha256_hex value;
    expires_at_ms = expires_at;
    used_at_ms = 0;
    attempts = 0;
  }

  -- What the loop does with the insertion's result; `again` is the next round.
  unfoldable pub after_insert :
      Code
      → Result (Unit {0}) × Database
      → Option (Result Code × Database)
      → Option (Result Code × Database)
  after_insert code (ok done, db) again = some (ok code, db)
  after_insert code (err e, db) again = if is_already_exists e then again else some (err e, db)

  -- What the loop does with the draw; `again` is the next round on what is left of the draws.
  unfoldable pub after_draw :
      Bool
      → ℕ
      → Database
      → (List (Option ℕ) → Database → Option (Result Code × Database))
      → Drawn
      → Option (Result Code × Database)
  after_draw fault expires_at db again starved = none
  after_draw fault expires_at db again (unreadable rest) = some (err failure, db)
  after_draw fault expires_at db again (drawn value rest) =
      let inserted = insert_pairing_code fault (code_of value expires_at) db in
      after_insert (record { value = value; expires_at_ms = expires_at }) inserted
        (again rest inserted.1)

  -- The loop, with the attempts that are left; `none` where the supply of draws runs out.
  unfoldable pub issue_loop :
      ℕ → ℕ → (ℕ → Bool) → ℕ → List (Option ℕ) → Database → Option (Result Code × Database)
  issue_loop zero attempt fault expires_at draws db = some (err failure, db)
  issue_loop (suc left) attempt fault expires_at draws db =
      after_draw (fault attempt) expires_at db (issue_loop left (attempt + 1) fault expires_at)
        (generate_pairing_code draws)

  unfoldable pub issue_code : Config → IssueEnv → Database → Option (Result Code × Database)
  unfolding issue_loop
  issue_code c env db =
      issue_loop issue_retries 0 env.insert_fault (to_ms (env.now + c.code_ttl)) env.draws
        (delete_pairing_codes_before env.sweep_fault (to_ms env.now) db).1
