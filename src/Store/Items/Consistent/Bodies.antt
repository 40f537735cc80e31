-- ===== src/Store/Items/Consistent/Bodies.antt =====
-- What the body of each transaction on blobs, variants, items and devices keeps.
use homesink.Base.{
  ◌||◌, ℕ, ◌≡◌, refl, sym, ap, subst, ◌⊎◌, inl, inr, true, not, ◌&&◌, [], ◌∷◌, ◌++◌, Option, none,
  some, Str, leb, ◌==◌, select, update, affected, Bool-cases, Option-cases,
}
use homesink.Base.Table.{All-delete, All-append}
use homesink.Base.Int.{ℤ}
use homesink.Store.Devices.{
  Device, has_id, is_null, insert_device_tx, after_find, revoke_device_tx, touch_device_tx,
}
use homesink.Core.Types.{Item, Blob}
use homesink.Store.{
  Database, DeviceRow, BlobRow, ItemRow, BlobState, ok, err, StoreError, failure, already_exists,
  require_one_row,
}
use homesink.Store.Blobs.{
  insert_new_tx, is_media_type, is_blob_state, set_blob_state_tx, BlobVariant, is_blob, blob_row,
  insert_blob_tx, update_blob_tx, insert_blob_variant_tx, with_state,
}
use homesink.Store.Stats.{
  size_of, size, holds, is_joined, add_to_album_stats_tx, remove_from_album_stats_tx,
}
use homesink.Store.Stats.Derived.{IsConsistent, add-Counted, remove-Counted}
use homesink.Store.Items.{
  item_row, insert_row, after_insert, after_blob, after_join, join, with_size, is_item, at_path,
  known_device,
}
use homesink.Store.Tx.{After}
use homesink.Store.Items.Consistent.Sizes.{blobs-IsConsistent, append-SameSizes, update-SameSizes}
use homesink.Store.Items.Consistent.Ids.{unique-append, unique-delete}

pub insert_row-cases :
    (r : ItemRow) (db : Database)
    → ((e : StoreError) × (insert_row r db ≡ err e))
      ⊎ ((select (is_item r.item_id) db.items ≡ none)
          × (insert_row r db ≡ ok (record db { items = db.items ++ r ∷ [] })))
unfolding insert_row
insert_row-cases r db = elim (Bool-cases (not (leb 1 r.month && leb r.month 12))) [
  | inl bad ↦ inl (failure, rw bad refl)
  | inr month ↦ elim (Option-cases (select (is_item r.item_id) db.items)) [
    | inr (x, e) ↦ inl (already_exists, rw (month, e) refl)
    | inl e ↦ elim (Bool-cases (holds (select (at_path r.rel_path) db.items))) [
      | inl taken ↦ inl (already_exists, rw (month, e, taken) refl)
      | inr free ↦ elim (Bool-cases (not (known_device r.device_id db))) [
        | inl unknown ↦ inl (failure, rw (month, e, free, unknown) refl)
        | inr known ↦ inr (e, rw (month, e, free, known) refl)
      ]
    ]
  ]
]

pub after_blob-After :
    (it : Item) (db : Database) (o : Option ℕ)
    → size_of db.blobs it.hash ≡ o
    → IsConsistent db
    → After IsConsistent (after_blob it db o)
unfolding after_blob after_insert item_row add_to_album_stats_tx
after_blob-After it db none s c = tt
after_blob-After it db (some n) s c = elim (insert_row-cases (item_row it) db) [
  | inl (e, refused) ↦
      subst (λ x. After IsConsistent (after_insert (item_row it) n x)) (sym refused) tt
  | inr (fresh, inserted) ↦
      subst (λ x. After IsConsistent (after_insert (item_row it) n x)) (sym inserted)
        (record {
          unique = unique-append db.items (item_row it) fresh c.unique;
          placed =
              All-append (λ r. is_joined db.blobs r ≡ true) db.items (item_row it) c.placed
                (ap holds s);
          counted = add-Counted db (item_row it) n s c.counted;
        })
]

join-After :
    (id : Str) (db : Database) (r : ItemRow) (o : Option ℕ)
    → select (is_item id) db.items ≡ some r
    → size_of db.blobs r.hash ≡ o
    → IsConsistent db
    → After IsConsistent (after_join id db (with_size r o))
unfolding after_join remove_from_album_stats_tx
join-After id db r none f s c = tt
join-After id db r (some n) f s c = record {
  unique = unique-delete id db.items c.unique;
  placed = All-delete (λ x. is_joined db.blobs x ≡ true) (is_item id) db.items c.placed;
  counted = remove-Counted db id r n c.unique f s c.counted;
}

pub delete_item-After :
    (id : Str) (db : Database) (o : Option ItemRow)
    → select (is_item id) db.items ≡ o
    → IsConsistent db
    → After IsConsistent (after_join id db (join db.blobs o))
unfolding after_join
delete_item-After id db none f c = tt
delete_item-After id db (some r) f c = join-After id db r (size_of db.blobs r.hash) f refl c

insert_new-After :
    (b : Blob) (db : Database) → IsConsistent db → After IsConsistent (insert_new_tx b db)
unfolding insert_new_tx
insert_new-After b db c = elim (Option-cases (select (is_blob b.hash) db.blobs)) [
  | inl e ↦
      rw (e, insert_new_tx)
        (blobs-IsConsistent db (db.blobs ++ blob_row b ∷ [])
          (append-SameSizes db.blobs (blob_row b) db.items c.placed) c)
  | inr (r, e) ↦ rw (e, insert_new_tx) tt
]

pub insert_blob-After :
    (b : Blob) (db : Database) → IsConsistent db → After IsConsistent (insert_blob_tx b db)
unfolding insert_blob_tx
insert_blob-After b db c = elim (Bool-cases (is_media_type b.media_type)) [
  | inl t ↦ rw t (insert_new-After b db c)
  | inr t ↦ rw t tt
]

pub insert_variant-After :
    (v : BlobVariant) (db : Database)
    → IsConsistent db
    → After IsConsistent (insert_blob_variant_tx v db)
unfolding insert_blob_variant_tx
insert_variant-After v db c = elim (Option-cases (select (is_blob v.hash) db.blobs)) [
  | inl e ↦ rw (e, insert_blob_variant_tx) tt
  | inr (r, e) ↦
      rw (e, insert_blob_variant_tx)
        (record { unique = c.unique; placed = c.placed; counted = c.counted })
]

pub update_blob-After :
    (h : Str) (f : BlobRow → BlobRow) (db : Database)
    → ((b : BlobRow) → (f b).hash ≡ b.hash)
    → ((b : BlobRow) → (f b).size_bytes ≡ b.size_bytes)
    → IsConsistent db
    → After IsConsistent (update_blob_tx h f db)
unfolding update_blob_tx require_one_row
update_blob-After h f db hash size c = elim (Bool-cases (affected (is_blob h) db.blobs == 0)) [
  | inl e ↦ rw (e, update_blob_tx, require_one_row) tt
  | inr e ↦
      rw (e, update_blob_tx, require_one_row)
        (blobs-IsConsistent db (update (is_blob h) f db.blobs)
          (update-SameSizes h f db.blobs db.items hash size) c)
]

pub state-After :
    (h : Str) (s : BlobState) (db : Database)
    → IsConsistent db
    → After IsConsistent (set_blob_state_tx h s db)
unfolding set_blob_state_tx
state-After h s db c = elim (Bool-cases (is_blob_state s || affected (is_blob h) db.blobs == 0)) [
  | inl t ↦ rw t (update_blob-After h (with_state s) db (λ b. refl) (λ b. refl) c)
  | inr t ↦ rw t tt
]

pub insert_device-After :
    (d : Device) (db : Database) → IsConsistent db → After IsConsistent (insert_device_tx d db)
unfolding insert_device_tx
insert_device-After d db c = elim (Option-cases (select (has_id d.device_id) db.devices)) [
  | inl e ↦
      rw (e, insert_device_tx)
        (record { unique = c.unique; placed = c.placed; counted = c.counted })
  | inr (r, e) ↦ rw (e, insert_device_tx) tt
]

after_find-After :
    (now : ℕ) (id : Str) (db : Database) (o : Option DeviceRow)
    → IsConsistent db
    → After IsConsistent (after_find now id db o)
unfolding after_find
after_find-After now id db none c = tt
after_find-After now id db (some r) c = elim (Bool-cases (is_null r.revoked_at)) [
  | inl t ↦ rw t (record { unique = c.unique; placed = c.placed; counted = c.counted })
  | inr t ↦ rw t c
]

pub revoke_device-After :
    (now : ℕ) (id : Str) (db : Database)
    → IsConsistent db
    → After IsConsistent (revoke_device_tx now id db)
unfolding revoke_device_tx
revoke_device-After now id db = after_find-After now id db (select (has_id id) db.devices)

pub touch_device-After :
    (now : ℕ) (id : Str) (version : ℤ) (db : Database)
    → IsConsistent db
    → After IsConsistent (touch_device_tx now id version db)
unfolding touch_device_tx
touch_device-After now id version db c = elim (Bool-cases (affected (has_id id) db.devices == 0)) [
  | inl t ↦ rw t tt
  | inr t ↦ rw t (record { unique = c.unique; placed = c.placed; counted = c.counted })
]
