-- ===== src/MemStore/Blobs/Calls.antt =====
-- InsertBlob, SetBlobState, SetBlobStoredHash and SetBlobMedia of MemStore against those of the
-- SQLite store.
use homesink.Base.{
  ℕ, ◌≡◌, ◌≢◌, refl, sym, ap, subst, ◌∙◌, inl, inr, Bool, false, [], ◌∷◌, ◌++◌, Option, none, some,
  Str, str_eq, str_eq_sound, str_eq_refl, if◌then◌else◌, Bool-cases, Option-cases, select,
}
use homesink.Base.Table.{select-append, select-append_other}
use homesink.Core.Types.{Blob}
use homesink.Store.{
  Database, BlobRow, BlobState, stored, ok, err, already_exists, commit, scan_string,
}
use homesink.Store.Blobs.{is_blob, blob_row, scan_blob, found_blob, insert_new_tx, update_blob_tx}
use homesink.Store.Blobs
use homesink.MemStore.{MemStore}
use homesink.MemStore.Maps.{text_key, get, set}
use homesink.MemStore.Maps.Lookup.{get-set_same, get-set_other}
use homesink.MemStore.Blobs.{insert_new, with_state, with_blob, replaced, with_media}
use homesink.MemStore.Blobs.Agree.{
  SameBlob, Agrees, Refines, scan_int-null_int, scan_blob-blob_row, update_found, update_missing,
  after_update,
}

same_missing :
    (b : Option Blob) (s : Option BlobState) (o : Option BlobRow)
    → SameBlob b s o
    → o ≡ none
    → b ≡ none
same_missing b s none a e = a.0
same_missing b s (some r) a e = cc e

same_row :
    (b : Option Blob) (s : Option BlobState) (o : Option BlobRow) (r : BlobRow)
    → SameBlob b s o
    → o ≡ some r
    → (b ≡ some (scan_blob r)) × (s ≡ some r.state)
same_row b s o r a e = subst (SameBlob b s) e a

-- SetBlobStoredHash and SetBlobMedia: one field assignment on each side.
pub with_blob-Refines :
    (h : Str) (f : BlobRow → BlobRow) (g : Blob → Blob) (m : MemStore) (db : Database)
    → ((r : BlobRow) → (f r).hash ≡ r.hash)
    → ((r : BlobRow) → (f r).state ≡ r.state)
    → ((r : BlobRow) → scan_blob (f r) ≡ g (scan_blob r))
    → Agrees m db
    → Refines (with_blob h g m (get text_key h m.blobs)) (commit db (update_blob_tx h f db))
with_blob-Refines h f g m db hash state scan a = elim (Option-cases (select (is_blob h) db.blobs)) [
  | inl e ↦
      rw (same_missing _ (get text_key h m.blob_states) _ (a.at h) e, update_missing h f hash db e)
        (record { result = refl; states = a })
  | inr (r, e) ↦
      let (b, s) =
        same_row (get text_key h m.blobs) (get text_key h m.blob_states)
          (select (is_blob h) db.blobs) r (a.at h) e in
      rw (b, update_found h f hash db r e)
        (record {
          result = refl;
          states =
              after_update h f hash m db (set text_key h (g (scan_blob r)) m.blobs) m.blob_states r
                a e (get-set_same h (g (scan_blob r)) m.blobs ∙ ap some (sym (scan r)))
                (s ∙ ap some (sym (state r))) (λ k n. get-set_other h k (g (scan_blob r)) m.blobs n)
                (λ k n. refl);
        })
]

pub with_state-Refines :
    (h : Str) (state : BlobState) (m : MemStore) (db : Database)
    → Agrees m db
    → Refines
        (with_state h state m (get text_key h m.blobs))
        (commit db (update_blob_tx h (Blobs.with_state state) db))
unfolding scan_blob
with_state-Refines h state m db a = elim (Option-cases (select (is_blob h) db.blobs)) [
  | inl e ↦
      rw
        (
          same_missing _ (get text_key h m.blob_states) _ (a.at h) e,
          update_missing h (Blobs.with_state state) (λ r. refl) db e,
        )
        (record { result = refl; states = a })
  | inr (r, e) ↦
      let (b, s) =
        same_row (get text_key h m.blobs) (get text_key h m.blob_states)
          (select (is_blob h) db.blobs) r (a.at h) e in
      rw (b, update_found h (Blobs.with_state state) (λ r. refl) db r e)
        (record {
          result = refl;
          states =
              after_update h (Blobs.with_state state) (λ r. refl) m db m.blobs
                (set text_key h state m.blob_states) r a e b (get-set_same h state m.blob_states)
                (λ k n. refl) (λ k n. get-set_other h k state m.blob_states n);
        })
]

new_row :
    (b : Blob) (db : Database)
    → select (is_blob b.hash) db.blobs ≡ none
    → select (is_blob b.hash) (db.blobs ++ blob_row b ∷ []) ≡ some (blob_row b)
unfolding blob_row
new_row b db e =
    select-append (is_blob b.hash) db.blobs (blob_row b) e
    ∙ ap (λ (x : Bool). if x then some (blob_row b) else none) (str_eq_refl b.hash)

state_of_new : (b : Blob) → some stored ≡ some (blob_row b).state
unfolding blob_row
state_of_new b = refl

old_key : (b : Blob) (k : Str) → str_eq b.hash k ≡ false → is_blob k (blob_row b) ≡ false
unfolding blob_row
old_key b k t = t

pub scan_replaced :
    (s : Str) (now : ℕ) (r : BlobRow)
    → scan_blob (Blobs.replaced s now r) ≡ replaced now s (scan_blob r)
unfolding scan_blob scan_string
scan_replaced s now r = refl

pub scan_media :
    (width height ms : ℕ) (r : BlobRow)
    → scan_blob (Blobs.with_media width height ms r) ≡ with_media width height ms (scan_blob r)
unfolding scan_blob
scan_media width height ms r =
    rw (scan_int-null_int width, scan_int-null_int height, scan_int-null_int ms) refl

-- InsertBlob.
inserted_at :
    (b : Blob) (m : MemStore) (db : Database)
    → Agrees m db
    → select (is_blob b.hash) db.blobs ≡ none
    → (k : Str)
    → SameBlob
        (get text_key k (set text_key b.hash b m.blobs))
        (get text_key k (set text_key b.hash stored m.blob_states))
        (select (is_blob k) (db.blobs ++ blob_row b ∷ []))
inserted_at b m db a e k = elim (Bool-cases (str_eq b.hash k)) [
  | inl t ↦
      subst
        (λ (x : Str).
          SameBlob (get text_key x (set text_key b.hash b m.blobs))
            (get text_key x (set text_key b.hash stored m.blob_states))
            (select (is_blob x) (db.blobs ++ blob_row b ∷ [])))
        (str_eq_sound b.hash k t)
        (rw
          (
            new_row b db e,
            get-set_same b.hash b m.blobs,
            get-set_same b.hash stored m.blob_states,
            scan_blob-blob_row b,
          )
          (refl, state_of_new b))
  | inr t ↦
      let n : b.hash ≢ k = λ s. cc (sym t ∙ ap (str_eq b.hash) (sym s) ∙ str_eq_refl b.hash) in
      rw
        (
          select-append_other (is_blob k) db.blobs (blob_row b) (old_key b k t),
          get-set_other b.hash k b m.blobs n,
          get-set_other b.hash k stored m.blob_states n,
        )
        (a.at k)
]

insert_fresh :
    (b : Blob) (db : Database)
    → select (is_blob b.hash) db.blobs ≡ none
    → commit db (insert_new_tx b db) ≡ (ok tt, record db { blobs = db.blobs ++ blob_row b ∷ [] })
unfolding insert_new_tx commit
insert_fresh b db e = rw (commit, insert_new_tx, e) refl

insert_taken :
    (b : Blob) (db : Database) (r : BlobRow)
    → select (is_blob b.hash) db.blobs ≡ some r
    → commit db (insert_new_tx b db) ≡ (err already_exists, db)
unfolding insert_new_tx commit
insert_taken b db r e = rw (commit, insert_new_tx, e) refl

pub insert_new-Refines :
    (b : Blob) (m : MemStore) (db : Database)
    → Agrees m db
    → Refines (insert_new b m (get text_key b.hash m.blobs)) (commit db (insert_new_tx b db))
insert_new-Refines b m db a = elim (Option-cases (select (is_blob b.hash) db.blobs)) [
  | inl e ↦
      rw (same_missing _ (get text_key b.hash m.blob_states) _ (a.at b.hash) e, insert_fresh b db e)
        (record { result = refl; states = record { at = inserted_at b m db a e } })
  | inr (r, e) ↦
      let (old, s) =
        same_row (get text_key b.hash m.blobs) (get text_key b.hash m.blob_states)
          (select (is_blob b.hash) db.blobs) r (a.at b.hash) e in
      rw (old, insert_taken b db r e) (record { result = refl; states = a })
]
