-- ===== src/Auth/Issue/Issued.antt =====
-- The results of IssueCode.
use homesink.Base.{
  ℕ, zero, suc, ◌+◌, ◌≡◌, refl, ◌⊎◌, inl, inr, Bool, true, false, List, [], ◌∷◌, ◌++◌, Option, none,
  some, Str, arith, select, Bool-cases, Option-cases,
}
use homesink.Store.{
  Database, Result, ok, err, StoreError, failure, already_exists, is_already_exists,
}
use homesink.Store.Codes.{
  PairingCode, code_row, has_hash, insert_pairing_code, delete_pairing_codes_before,
}
use homesink.Auth.Token.{
  Drawn, drawn, unreadable, starved, generate_pairing_code, valid_code_format,
}
use homesink.Auth.Token.Format.{ValidDrawn, generate-valid}
use homesink.Auth.Limiter.{Config, to_ms}
use homesink.Auth.Issue.{
  Code, IssueEnv, code_of, after_insert, after_draw, issue_loop, issue_code, issue_retries,
}

insert_code-cases :
    (fault : Bool) (pc : PairingCode) (db : Database)
    → ((e : StoreError) × (insert_pairing_code fault pc db ≡ (err e, db)))
      ⊎ ((select (has_hash pc.code_hash) db.pairing_codes ≡ none)
          × (insert_pairing_code fault pc db
              ≡ (ok tt, record db { pairing_codes = db.pairing_codes ++ code_row pc ∷ [] })))
unfolding insert_pairing_code
insert_code-cases true pc db = inl (failure, refl)
insert_code-cases false pc db =
    elim (Option-cases (select (has_hash pc.code_hash) db.pairing_codes)) [
      | inl e ↦ inr (e, ground arith)
      | inr (r, e) ↦ inl (already_exists, ground arith)
    ]

module _ (sha256_hex : Str → Str) where
  -- A well-formed code that was in no row has become the newest row, unused, with its expiry.
  pub record Issued (expires_at : ℕ) (db : Database) (code : Code) (db' : Database) : Type 0 where
    pub formed : valid_code_format code.value ≡ true
    pub expiry : code.expires_at_ms ≡ expires_at
    pub unknown : select (has_hash (sha256_hex code.value)) db.pairing_codes ≡ none
    pub stored : db' ≡ record db {
      pairing_codes = db.pairing_codes ++ code_row (code_of sha256_hex code.value expires_at) ∷ [];
    }

  abbrev pub IssuePost : ℕ → Database → Option (Result Code × Database) → Type 0
  IssuePost expires_at db none = Unit
  IssuePost expires_at db (some (ok code, db')) = Issued expires_at db code db'
  IssuePost expires_at db (some (err e, db')) = db' ≡ db

  after_insert_post :
      (fault : Bool) (expires_at : ℕ) (value : Str) (db : Database)
      (again : Database → Option (Result Code × Database))
      → valid_code_format value ≡ true
      → ((d : Database) → IssuePost expires_at d (again d))
      → (let inserted = insert_pairing_code fault (code_of sha256_hex value expires_at) db in
          IssuePost expires_at db (
            after_insert sha256_hex
              (record { value = value; expires_at_ms = expires_at })
              inserted
              (again inserted.1)))
  unfolding after_insert
  after_insert_post fault expires_at value db again formed ih =
      elim (insert_code-cases fault (code_of sha256_hex value expires_at) db) [
        | inl (e, failed_insert) ↦ rw failed_insert (elim (Bool-cases (is_already_exists e)) [
          | inl taken ↦ rw taken (ih db)
          | inr other ↦ rw other refl
        ])
        | inr (fresh, inserted) ↦
            rw inserted (record { formed = formed; expiry = refl; unknown = fresh; stored = refl })
      ]

  after_draw_post :
      (fault : Bool) (expires_at : ℕ) (db : Database)
      (again : List (Option ℕ) → Database → Option (Result Code × Database)) (d : Drawn)
      → ValidDrawn d
      → ((rest : List (Option ℕ)) (db' : Database) → IssuePost expires_at db' (again rest db'))
      → IssuePost expires_at db (after_draw sha256_hex fault expires_at db again d)
  unfolding after_draw
  after_draw_post fault expires_at db again starved v ih = tt
  after_draw_post fault expires_at db again (unreadable rest) v ih = refl
  after_draw_post fault expires_at db again (drawn value rest) v ih =
      after_insert_post fault expires_at value db (again rest) v (ih rest)

  issue_loop_post :
      (left attempt : ℕ) (fault : ℕ → Bool) (expires_at : ℕ) (draws : List (Option ℕ))
      (db : Database)
      → IssuePost expires_at db (issue_loop sha256_hex left attempt fault expires_at draws db)
  unfolding issue_loop
  issue_loop_post zero attempt fault expires_at draws db = refl
  issue_loop_post (suc left) attempt fault expires_at draws db =
      after_draw_post (fault attempt) expires_at db
        (issue_loop sha256_hex left (attempt + 1) fault expires_at) (generate_pairing_code draws)
        (generate-valid draws) (issue_loop_post left (attempt + 1) fault expires_at)

  -- IssueCode leaves what the sweep left when it fails, and otherwise adds one row to it: that of
  -- the code it returns, which is well-formed and was in no row, unused, with the expiry it returns.
  pub issue_code_post :
      (c : Config) (env : IssueEnv) (db : Database)
      → IssuePost
          (to_ms (env.now + c.code_ttl))
          (delete_pairing_codes_before env.sweep_fault (to_ms env.now) db).1
          (issue_code sha256_hex c env db)
  unfolding issue_code
  issue_code_post c env db =
      issue_loop_post issue_retries 0 env.insert_fault (to_ms (env.now + c.code_ttl)) env.draws
        (delete_pairing_codes_before env.sweep_fault (to_ms env.now) db).1
