-- ===== src/Library/Place/Recorded.antt =====
-- Place, the insertion of what it returns, and Place again.
use homesink.Base.{
  List, ◌≡◌, refl, sym, ap, subst, ◌∙◌, inl, inr, Bool, true, false, [], ◌∷◌, ◌++◌, Option, none,
  some, Str, str_eq_sound, if◌then◌else◌, Option-cases, select,
}
use homesink.Core.Types.{Item, Placement}
use homesink.Store.{Database, ItemRow, ok, with_read, null_string, scan_string}
use homesink.Store.Items.{item_by_path, at_path, found_item, scan_item, item_row, insert_item}
use homesink.Base.Table.{select_sound}
use homesink.Library.Clusters.{Segmenter}
use homesink.Library.Paths.{Resolved, resolve, safe_abs}
use homesink.Library.Files.{Files}
use homesink.Library.Install.{Faults, Placer, Placed, done, fail, invalid_hash, install}
use homesink.Library.Place.{
  item_at, resolve_collision, placed_item, after_install, after_resolve, valid_hash, place,
}
use homesink.Library.Place.Again.{read_rel_path, insert_item-appends, first-again}
use homesink.Library.Place.Outcome.{IsFree, Decided, resolve_collision-Decided}

-- Calls that all succeed.
abbrev pub no_faults : Faults
no_faults = record {
  first_item = false;
  second_item = false;
  blob = false;
  mkdir = false;
  stat_staged = false;
  publish = false;
  stat_source = false;
  stat_target = false;
  random_link = false;
  mkdir_staging = false;
  link = false;
  publish_link = false;
  remove = false;
  random_id = false;
}

abbrev pub from_device : Str → Item → Item
from_device d it = record it { device_id = d }

null_string-scan : (d : Str) → scan_string (null_string d) ≡ d
unfolding null_string scan_string
null_string-scan [] = refl
null_string-scan (r ∷ d) = refl

scan_item-item_row : (it : Item) → scan_item (item_row it) ≡ it
unfolding scan_item item_row
scan_item-item_row it = ap (λ (d : Str). from_device d it) (null_string-scan it.device_id)

read_path :
    (path : Str) (db : Database) (it : Item) (o : Option ItemRow)
    → select (at_path path) db.items ≡ o
    → found_item o ≡ ok it
    → it.rel_path ≡ path
unfolding found_item scan_item
read_path path db it none h k = cc k
read_path path db it (some r) h k =
    ap read_rel_path (sym k)
    ∙ str_eq_sound r.rel_path path (select_sound (at_path path) db.items {a = r} h)

not_recorded :
    (path : Str) (db : Database) (it : Item)
    → item_by_path false path db ≡ ok it
    → IsFree it.rel_path db
    → ⊥
unfolding item_by_path with_read found_item
not_recorded path db it h free =
    let same = read_path path db it (select (at_path path) db.items) refl h in
    cc (
      subst (λ (o : Option ItemRow). found_item o ≡ ok it)
        (subst (λ (x : Str). IsFree x db) same free) h)

after_install-item :
    (fault : Bool) (it it' : Item) (x : Placed (Unit {0}) × Files) (fs' : Files)
    → after_install fault it x ≡ (done it', fs')
    → it ≡ it'
unfolding after_install
after_install-item fault it it' (fail e, fs) fs' h = cc h
after_install-item true it it' (done u, fs) fs' h = cc h
after_install-item false it it' (done u, fs) fs' h = cc h

-- A new placement that is returned is the one resolved.
new_item :
    (faults : Faults) (p : Placer) (hash : Str) (pl : Placement) (db : Database) (fs fs' : Files)
    (it : Item) (d : Placed (Resolved × Option Item))
    → after_resolve faults p hash pl db fs d ≡ (done it, fs')
    → Decided hash db d
    → IsFree it.rel_path db
    → (r : Resolved) × (d ≡ done (r, none)) × (placed_item p hash pl r ≡ it)
unfolding after_resolve
new_item faults p hash pl db fs fs' it (fail e) h k free = cc h
new_item faults p hash pl db fs fs' it (done (r, some found)) h k free =
    let same : found ≡ it = cc h in absurd (not_recorded r.rel_path db it (k.0 ∙ ap ok same) free)
new_item faults p hash pl db fs fs' it (done (r, none)) h k free =
    elim (Option-cases (safe_abs p.root r.rel_path)) [
      | inl e ↦ cc (rw e at h)
      | inr (abs, e) ↦ (
        r,
        refl,
        after_install-item faults.random_id (placed_item p hash pl r) it
            (install faults p hash abs db fs) fs' (rw e at h),
      )
    ]

again :
    (nfc : Str → Str) (extra : Segmenter) (faults : Faults) (hash : Str) (pl : Placement)
    (db db' : Database) (row : ItemRow) (r : Resolved)
    → db'.items ≡ db.items ++ row ∷ []
    → row.hash ≡ hash
    → row.rel_path ≡ r.rel_path
    → resolve_collision nfc extra faults hash pl db ≡ done (r, none)
    → resolve_collision nfc extra no_faults hash pl db' ≡ done (r, some (scan_item row))
unfolding resolve_collision
again nfc extra faults hash pl db db' row r e h k l =
    first-again hash db db' row e h extra faults.first_item faults.second_item
      (resolve nfc extra pl) r (item_at faults.first_item (resolve nfc extra pl).rel_path db) refl l
      k

valid_of :
    (b : Bool) (it : Item) (fs fs' : Files) (x : Placed Item × Files)
    → (if b then x else (fail invalid_hash, fs)) ≡ (done it, fs')
    → (b ≡ true) × (x ≡ (done it, fs'))
valid_of true it fs fs' x h = (refl, h)
valid_of false it fs fs' x h = cc h

-- A retried commit is idempotent. `db` is what Place read, `ready` a database with the same items, as
-- after InsertBlob has stored the row of the blob, and `db'` what InsertItem left, having stored the
-- item of the new placement for whichever device. Then Place called again over `db'` for the same blob
-- and placement, at another time, over any files and with no failing call, returns that item unchanged
-- and touches no file.
pub place-insert_item-place :
    (nfc : Str → Str) (extra : Segmenter) (faults : Faults) (fault : Bool) (p p' : Placer)
    (hash device : Str) (pl : Placement) (db ready db' : Database) (fs fs' files : Files)
    (it : Item)
    → place nfc extra faults p hash pl db fs ≡ (done it, fs')
    → IsFree it.rel_path db
    → ready.items ≡ db.items
    → insert_item fault (from_device device it) ready ≡ (ok tt, db')
    → place nfc extra no_faults p' hash pl db' files ≡ (done (from_device device it), files)
unfolding place after_resolve item_row
place-insert_item-place nfc extra faults fault p p' hash device pl db ready db' fs fs' files it h
      free same_items inserted =
    let (valid, placed) = valid_of (valid_hash hash) it fs fs' _ h in
    let (r, resolved, same) =
      new_item faults p hash pl db fs fs' it (resolve_collision nfc extra faults hash pl db) placed
        (resolve_collision-Decided hash db nfc extra faults pl) free in
    let row = item_row (from_device device it) in
    let rows : db'.items ≡ db.items ++ row ∷ [] =
      insert_item-appends fault (from_device device it) ready db' inserted
      ∙ ap (λ (items : List ItemRow). items ++ row ∷ []) same_items in
    let held =
      again nfc extra faults hash pl db db' row r rows (ap (λ (x : Item). x.hash) (sym same))
        (ap (λ (x : Item). x.rel_path) (sym same)) resolved in
    rw (valid, held, scan_item-item_row (from_device device it)) refl
