-- ===== src/Store/Items/Consistent.antt =====
-- Sequences of transactions on blobs, blob_variants, items and devices, and the counters of album_stats.
pub mod Sizes
pub mod Ids
pub mod Bodies
use homesink.Base.{ℕ, ◌≡◌, refl, sym, ap, ◌∙◌, Bool, false, List, [], ◌∷◌, head?, Str, select}
use homesink.Base.Table.{select-keep}
use homesink.Base.Int.{ℤ}
use homesink.Store.Devices.{
  Device, insert_device_tx, insert_device, revoke_device_tx, revoke_device, touch_device_tx,
  touch_device,
}
use homesink.Core.Types.{Item, Blob}
use homesink.Store.{Database, BlobState, with_read, empty}
use homesink.Store.Blobs.{
  set_blob_state_tx, BlobVariant, insert_blob, insert_blob_tx, update_blob_tx, set_blob_state,
  set_blob_stored_hash, set_blob_media, insert_blob_variant, insert_blob_variant_tx, replaced,
  with_media,
}
use homesink.Store.Stats.{
  Key, size_of, group_row, derive_album_stats, is_key, album_stat, found_stat,
}
use homesink.Store.Stats.Derived.{IsConsistent, derived}
use homesink.Store.Items.{insert_item, delete_item, insert_item_tx, delete_item_tx, is_item}
use homesink.Store.Tx.{with_tx-keeps}
use homesink.Store.Stats.Groups.{stat_among, stat_among-derive_group}
use homesink.Store.Items.Consistent.Bodies.{
  insert_blob-After, after_blob-After, delete_item-After, insert_variant-After, update_blob-After,
  state-After, insert_device-After, revoke_device-After, touch_device-After,
}

-- One transaction: what it is asked, and whether the driver fails it.
pub data Call : Type 0 where
  new_blob : Bool → Blob → Call
  state_of : Bool → Str → BlobState → Call
  stored_hash_of : Bool → ℕ → Str → Str → Call
  media_of : Bool → Str → ℕ → ℕ → ℕ → Call
  variant : Bool → BlobVariant → Call
  new_item : Bool → Item → Call
  drop_item : Bool → Str → Call
  new_device : Bool → Device → Call
  revoke : Bool → ℕ → Str → Call
  touch : Bool → ℕ → Str → ℤ → Call

unfoldable pub step : Call → Database → Database
step (new_blob fault b) db = (insert_blob fault b db).1
step (state_of fault h s) db = (set_blob_state fault h s db).1
step (stored_hash_of fault now h s) db = (set_blob_stored_hash fault now h s db).1
step (media_of fault h width height ms) db = (set_blob_media fault h width height ms db).1
step (variant fault v) db = (insert_blob_variant fault v db).1
step (new_item fault it) db = (insert_item fault it db).1
step (drop_item fault id) db = (delete_item fault id db).1
step (new_device fault d) db = (insert_device fault d db).1
step (revoke fault now id) db = (revoke_device fault now id db).1
step (touch fault now id version) db = (touch_device fault now id version db).1

unfoldable pub run : List Call → Database → Database
run [] db = db
run (c ∷ cs) db = run cs (step c db)

-- Every transaction on blobs, variants, items and devices, rolled back or not, keeps item ids unique, every
-- item with its blob, and the row of every key in album_stats that of its group.
pub step-IsConsistent :
    (call : Call) (db : Database) → IsConsistent db → IsConsistent (step call db)
unfolding step insert_blob set_blob_state set_blob_stored_hash set_blob_media insert_blob_variant
    insert_item delete_item delete_item_tx insert_item_tx insert_device revoke_device touch_device
step-IsConsistent (new_blob fault b) db c =
    with_tx-keeps IsConsistent fault (insert_blob_tx b) db c (insert_blob-After b db c)
step-IsConsistent (state_of fault h s) db c =
    with_tx-keeps IsConsistent fault (set_blob_state_tx h s) db c (state-After h s db c)
step-IsConsistent (stored_hash_of fault now h s) db c =
    with_tx-keeps IsConsistent fault (update_blob_tx h (replaced s now)) db c
      (update_blob-After h (replaced s now) db (λ b. refl) (λ b. refl) c)
step-IsConsistent (media_of fault h width height ms) db c =
    with_tx-keeps IsConsistent fault (update_blob_tx h (with_media width height ms)) db c
      (update_blob-After h (with_media width height ms) db (λ b. refl) (λ b. refl) c)
step-IsConsistent (variant fault v) db c =
    with_tx-keeps IsConsistent fault (insert_blob_variant_tx v) db c (insert_variant-After v db c)
step-IsConsistent (new_item fault it) db c =
    with_tx-keeps IsConsistent fault (insert_item_tx it) db c
      (after_blob-After it db (size_of db.blobs it.hash) refl c)
step-IsConsistent (drop_item fault id) db c =
    with_tx-keeps IsConsistent fault (delete_item_tx id) db c
      (delete_item-After id db (select (is_item id) db.items) refl c)
step-IsConsistent (new_device fault d) db c =
    with_tx-keeps IsConsistent fault (insert_device_tx d) db c (insert_device-After d db c)
step-IsConsistent (revoke fault now id) db c =
    with_tx-keeps IsConsistent fault (revoke_device_tx now id) db c
      (revoke_device-After now id db c)
step-IsConsistent (touch fault now id version) db c =
    with_tx-keeps IsConsistent fault (touch_device_tx now id version) db c
      (touch_device-After now id version db c)

pub run-IsConsistent :
    (calls : List Call) (db : Database) → IsConsistent db → IsConsistent (run calls db)
unfolding run
run-IsConsistent [] db c = c
run-IsConsistent (call ∷ calls) db c =
    run-IsConsistent calls (step call db) (step-IsConsistent call db c)

pub empty-IsConsistent : IsConsistent empty
unfolding group_row
empty-IsConsistent = record { unique = tt; placed = tt; counted = λ k. refl }

-- After any sequence of transactions on blobs, variants, items and devices from an empty database,
-- AlbumStat answers for every key with the row that DeriveAlbumStats returns for it, or with
-- ErrNotFound where it returns none.
pub album_stat-derived :
    (calls : List Call) (k : Key)
    → album_stat false k (run calls empty)
      ≡ stat_among k (derive_album_stats false (run calls empty))
unfolding album_stat with_read
album_stat-derived calls k =
    let db = run calls empty in
    ap found_stat (
      select-keep (is_key k) db.album_stats
      ∙ ap head? (sym (derived db k (run-IsConsistent calls empty empty-IsConsistent))))
    ∙ sym (stat_among-derive_group k db)
