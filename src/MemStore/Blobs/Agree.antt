-- ===== src/MemStore/Blobs/Agree.antt =====
-- When MemStore and the SQLite store hold the same blobs, and an UPDATE against an assignment.
use mathlib.Core.Option
use homesink.Base.{
  ℕ, ◌≡◌, ◌≢◌, refl, sym, ap, subst, ◌∙◌, inl, inr, true, false, List, [], ◌∷◌, Option, none, some,
  Str, str_eq, str_eq_sound, str_eq_refl, str_eq_ne, Bool-cases, select, update, arith,
}
use homesink.Base.Table.{select-update, select-update_other, affected-zero, affected-pos}
use homesink.Core.Types.{Blob}
use homesink.Store.{
  Database, BlobRow, BlobState, Result, ok, err, not_found, commit, null_int, null_string, scan_int,
  scan_string, require_one_row,
}
use homesink.Store.Blobs.{is_blob, blob_row, scan_blob, update_blob_tx}
use homesink.MemStore.{MemStore}
use homesink.MemStore.Maps.{text_key, get}

-- One blob of the two stores.
abbrev pub SameBlob : Option Blob → Option BlobState → Option BlobRow → Type 0
SameBlob b s none = (b ≡ none) × (s ≡ none)
SameBlob b s (some r) = (b ≡ some (scan_blob r)) × (s ≡ some r.state)

-- The same blobs, in the same states.
pub record Agrees (m : MemStore) (db : Database) : Type 0 where
  pub at :
      (h : Str)
      → SameBlob
          (get text_key h m.blobs)
          (get text_key h m.blob_states)
          (select (is_blob h) db.blobs)

pub scan_int-null_int : (n : ℕ) → scan_int (null_int n) ≡ n
unfolding scan_int null_int
scan_int-null_int n = ground arith

scan_string-null_string : (s : Str) → scan_string (null_string s) ≡ s
unfolding scan_string null_string
scan_string-null_string [] = refl
scan_string-null_string (r ∷ s) = refl

pub scan_blob-blob_row : (b : Blob) → scan_blob (blob_row b) ≡ b
unfolding scan_blob blob_row
scan_blob-blob_row b =
    rw
      (
        scan_string-null_string b.stored_hash,
        scan_int-null_int b.width,
        scan_int-null_int b.height,
        scan_int-null_int b.duration_ms,
      )
      refl

-- What is compared: the result, and then the states.
pub record Refines (x : Result (Unit {0}) × MemStore) (y : Result (Unit {0}) × Database)
    : Type 0 where
  pub result : x.0 ≡ y.0
  pub states : Agrees x.1 y.1

-- An UPDATE of one blob's row against an assignment.
module _ (h : Str) (f : BlobRow → BlobRow) (hash : (r : BlobRow) → (f r).hash ≡ r.hash) where
  keeps_key : (k : Str) (r : BlobRow) → is_blob k r ≡ true → is_blob k (f r) ≡ true
  keeps_key k r e = rw (hash r) e

  updated :
      (db : Database)
      → select (is_blob h) (update (is_blob h) f db.blobs)
        ≡ Option.map f (select (is_blob h) db.blobs)
  updated db = select-update (is_blob h) f db.blobs (keeps_key h)

  apart : (k : Str) (r : BlobRow) → h ≢ k → is_blob h r ≡ true → is_blob k r ≡ false
  apart k r n e = str_eq_ne r.hash k (λ s. n (sym (str_eq_sound r.hash h e) ∙ s))

  others :
      (k : Str) (db : Database)
      → h ≢ k
      → select (is_blob k) (update (is_blob h) f db.blobs) ≡ select (is_blob k) db.blobs
  others k db n =
      select-update_other (is_blob h) (is_blob k) f db.blobs (λ r e. apart k r n e)
        (λ r e. apart k (f r) n (keeps_key h r e))

  updated_row :
      (db : Database) (r : BlobRow)
      → select (is_blob h) db.blobs ≡ some r
      → select (is_blob h) (update (is_blob h) f db.blobs) ≡ some (f r)
  updated_row db r e = updated db ∙ ap (λ (o : Option BlobRow). Option.map f o) e

  -- The statement, by the row that it meets.
  pub update_found :
      (db : Database) (r : BlobRow)
      → select (is_blob h) db.blobs ≡ some r
      → commit db (update_blob_tx h f db)
        ≡ (ok tt, record db { blobs = update (is_blob h) f db.blobs })
  unfolding commit update_blob_tx require_one_row
  update_found db r e = ground (arith, affected-pos (is_blob h) db.blobs {a = r} e)

  pub update_missing :
      (db : Database)
      → select (is_blob h) db.blobs ≡ none
      → commit db (update_blob_tx h f db) ≡ (err not_found, db)
  unfolding commit update_blob_tx require_one_row
  update_missing db e = ground (arith, affected-zero (is_blob h) db.blobs e)

  -- Two assignments to the maps that follow the statement.
  module _ (m : MemStore) (db : Database) (blobs : List (Str × Blob))
      (states : List (Str × BlobState)) (r : BlobRow) (agrees : Agrees m db)
      (at_h : select (is_blob h) db.blobs ≡ some r)
      (blob_h : get text_key h blobs ≡ some (scan_blob (f r)))
      (state_h : get text_key h states ≡ some (f r).state)
      (blob_k : (k : Str) → h ≢ k → get text_key k blobs ≡ get text_key k m.blobs)
      (state_k : (k : Str) → h ≢ k → get text_key k states ≡ get text_key k m.blob_states) where
    at_key :
        (k : Str)
        → SameBlob
            (get text_key k blobs)
            (get text_key k states)
            (select (is_blob k) (update (is_blob h) f db.blobs))
    at_key k = elim (Bool-cases (str_eq h k)) [
      | inl t ↦
          subst
            (λ (x : Str).
              SameBlob (get text_key x blobs) (get text_key x states)
                (select (is_blob x) (update (is_blob h) f db.blobs)))
            (str_eq_sound h k t) (rw (updated_row db r at_h) (blob_h, state_h))
      | inr t ↦
          let n : h ≢ k = λ e. cc (sym t ∙ ap (str_eq h) (sym e) ∙ str_eq_refl h) in
          rw (others k db n, blob_k k n, state_k k n) (agrees.at k)
    ]

    pub after_update :
        Agrees
          (record m { blobs = blobs; blob_states = states })
          (record db { blobs = update (is_blob h) f db.blobs })
    after_update = record { at = at_key }
