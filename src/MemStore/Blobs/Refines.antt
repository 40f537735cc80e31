-- ===== src/MemStore/Blobs/Refines.antt =====
-- Sequences of blob calls on MemStore and on the SQLite store: what each returns, and the state
-- after it, blob by blob.
use homesink.Base.{
  All, true, ℕ, ◌≡◌, refl, ap, ap₂, false, List, [], ◌∷◌, Option, none, some, Str, select,
}
use homesink.Core.Types.{Blob}
use homesink.Store.{Database, empty, BlobRow, BlobState, Result, with_tx, with_read}
use homesink.Store.Blobs.{
  insert_blob_tx, insert_new_tx, update_blob_tx, is_media_type, is_blob_state, set_blob_state_tx,
  is_blob, blob_row, scan_blob, found_blob, insert_blob_tx, update_blob_tx,
}
use homesink.Store.Blobs
use homesink.MemStore.{MemStore, new_mem_store}
use homesink.MemStore.Maps.{text_key, get}
use homesink.MemStore.Blobs.{
  found, insert_blob, set_blob_state, replaced, set_blob_stored_hash, with_media, set_blob_media,
  blob_by_hash,
}
use homesink.MemStore.Blobs.Agree.{SameBlob, Agrees, Refines}
use homesink.MemStore.Blobs.Calls.{
  with_blob-Refines, with_state-Refines, scan_replaced, scan_media, insert_new-Refines,
}

-- The calls that change blobs, on either store.
pub data Call : Type 0 where
  insert : Blob → Call
  state_of : Str → BlobState → Call
  stored_hash_of : ℕ → Str → Str → Call
  media_of : Str → ℕ → ℕ → ℕ → Call

unfoldable pub in_memory : Call → MemStore → Result (Unit {0}) × MemStore
in_memory (insert b) m = insert_blob b m
in_memory (state_of h s) m = set_blob_state h s m
in_memory (stored_hash_of now h s) m = set_blob_stored_hash now h s m
in_memory (media_of h width height ms) m = set_blob_media h width height ms m

unfoldable pub in_sqlite : Call → Database → Result (Unit {0}) × Database
in_sqlite (insert b) db = Blobs.insert_blob false b db
in_sqlite (state_of h s) db = Blobs.set_blob_state false h s db
in_sqlite (stored_hash_of now h s) db = Blobs.set_blob_stored_hash false now h s db
in_sqlite (media_of h width height ms) db = Blobs.set_blob_media false h width height ms db

-- A call whose media type, or state, is one that the CHECKs of the SQLite store let in.
abbrev pub IsAccepted : Call → Type 0
IsAccepted (insert b) = is_media_type b.media_type ≡ true
IsAccepted (state_of h s) = is_blob_state s ≡ true
IsAccepted (stored_hash_of now h s) = Unit
IsAccepted (media_of h width height ms) = Unit

insert_blob_tx-accepted :
    (b : Blob) (db : Database)
    → is_media_type b.media_type ≡ true
    → insert_blob_tx b db ≡ insert_new_tx b db
unfolding insert_blob_tx
insert_blob_tx-accepted b db k = rw k refl

set_blob_state_tx-accepted :
    (h : Str) (s : BlobState) (db : Database)
    → is_blob_state s ≡ true
    → set_blob_state_tx h s db ≡ update_blob_tx h (Blobs.with_state s) db
unfolding set_blob_state_tx
set_blob_state_tx-accepted h s db k = rw k refl

call-Refines :
    (c : Call) (m : MemStore) (db : Database)
    → IsAccepted c
    → Agrees m db
    → Refines (in_memory c m) (in_sqlite c db)
unfolding in_memory in_sqlite insert_blob set_blob_state set_blob_stored_hash set_blob_media with_tx
    Blobs.insert_blob Blobs.set_blob_state Blobs.set_blob_stored_hash Blobs.set_blob_media
call-Refines (insert b) m db k a = rw (insert_blob_tx-accepted b db k) (insert_new-Refines b m db a)
call-Refines (state_of h s) m db k a =
    rw (set_blob_state_tx-accepted h s db k) (with_state-Refines h s m db a)
call-Refines (stored_hash_of now h s) m db k a =
    with_blob-Refines h (Blobs.replaced s now) (replaced now s) m db (λ r. refl) (λ r. refl)
      (scan_replaced s now) a
call-Refines (media_of h width height ms) m db k a =
    with_blob-Refines h (Blobs.with_media width height ms) (with_media width height ms) m db
      (λ r. refl) (λ r. refl) (scan_media width height ms) a

-- What the calls of a list return, one after the other, and the store after them.
unfoldable pub run_memory : List Call → MemStore → List (Result (Unit {0})) × MemStore
unfolding in_memory
run_memory [] m = ([], m)
run_memory (c ∷ cs) m =
    let (r, m') = in_memory c m in let (rs, end) = run_memory cs m' in (r ∷ rs, end)

unfoldable pub run_sqlite : List Call → Database → List (Result (Unit {0})) × Database
unfolding in_sqlite
run_sqlite [] db = ([], db)
run_sqlite (c ∷ cs) db =
    let (r, db') = in_sqlite c db in let (rs, end) = run_sqlite cs db' in (r ∷ rs, end)

-- Equal results, and every blob read back alike, with the same state.
pub record SameRun (x : List (Result (Unit {0})) × MemStore)
    (y : List (Result (Unit {0})) × Database) : Type 0 where
  pub results : x.0 ≡ y.0
  pub states : Agrees x.1 y.1

run-SameRun :
    (cs : List Call) (m : MemStore) (db : Database)
    → All IsAccepted cs
    → Agrees m db
    → SameRun (run_memory cs m) (run_sqlite cs db)
unfolding run_memory run_sqlite
run-SameRun [] m db k a = record { results = refl; states = a }
run-SameRun (c ∷ cs) m db k a =
    let one = call-Refines c m db k.0 a in
    let rest = run-SameRun cs (in_memory c m).1 (in_sqlite c db).1 k.1 one.states in
    record { results = ap₂ ◌∷◌ one.result rest.results; states = rest.states }

empty-Agrees : Agrees new_mem_store empty
unfolding get select
empty-Agrees = record { at = λ h. (refl, refl) }

same_read :
    (b : Option Blob) (s : Option BlobState) (o : Option BlobRow)
    → SameBlob b s o
    → found b ≡ found_blob o
unfolding found_blob
same_read b s none a = ap found a.0
same_read b s (some r) a = ap found a.0

-- From empty stores, for any sequence of InsertBlob, SetBlobState, SetBlobStoredHash and SetBlobMedia
-- whose media types and states pass the CHECKs of the schema, MemStore returns the same results as the SQLite store whose driver does not fail, error
-- values included, and BlobByHash then reads the same for every hash from both.
pub run_memory-run_sqlite :
    (cs : List Call) (h : Str)
    → All IsAccepted cs
    → ((run_memory cs new_mem_store).0 ≡ (run_sqlite cs empty).0)
      × (blob_by_hash h (run_memory cs new_mem_store).1
          ≡ Blobs.blob_by_hash false h (run_sqlite cs empty).1)
unfolding blob_by_hash Blobs.blob_by_hash with_read
run_memory-run_sqlite cs h accepted =
    let same = run-SameRun cs new_mem_store empty accepted empty-Agrees in
    (
      same.results,
      same_read _ (get text_key h (run_memory cs new_mem_store).1.blob_states) _ (same.states.at h),
    )
