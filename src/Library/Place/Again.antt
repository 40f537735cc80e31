-- ===== src/Library/Place/Again.antt =====
-- The resolution of a path before and after the insertion of one item.
use homesink.Base.{
  ℕ, ◌≡◌, refl, sym, ap, ◌∙◌, inl, inr, Bool, true, false, List, [], ◌∷◌, ◌++◌, Option, none, some,
  Str, str_eq, str_eq_refl, if◌then◌else◌, Bool-cases, select,
}
use homesink.Core.Types.{Item}
use homesink.Store.{Database, ItemRow, Result, ok, err, with_read, with_tx, commit}
use homesink.Store.Items.{
  item_by_path, at_path, found_item, scan_item, item_row, insert_row, after_insert, after_blob,
  insert_item_tx, insert_item,
}
use homesink.Store.Items.Consistent.Bodies.{insert_row-cases}
use homesink.Store.Stats.{add_to_album_stats_tx, size_of}
use homesink.Base.Table.{select-append, select-append_old}
use homesink.Library.Clusters.{Segmenter}
use homesink.Library.Paths.{Resolved, suffixed_filename}
use homesink.Library.Install.{Placed, done, fail, collision}
use homesink.Library.Place.{item_found, item_at, after_second, with_name, after_first}
use homesink.Library.Place.Outcome.{item_at-none, item_at-some}

abbrev pub read_rel_path : Result Item → Str
read_rel_path (ok it) = it.rel_path
read_rel_path (err e) = []

abbrev items_of : Result Database → List ItemRow
items_of (ok db) = db.items
items_of (err e) = []

-- What InsertItem adds where it succeeds.
after_insert-appends :
    (it : Item) (size : ℕ) (db db' : Database) (x : Result Database)
    → insert_row (item_row it) db ≡ x
    → commit db (after_insert (item_row it) size x) ≡ (ok tt, db')
    → db'.items ≡ db.items ++ item_row it ∷ []
unfolding commit after_insert add_to_album_stats_tx
after_insert-appends it size db db' (err e) h k = cc k
after_insert-appends it size db db' (ok next) h k = elim (insert_row-cases (item_row it) db) [
  | inl (e, refused) ↦ cc (sym h ∙ refused)
  | inr (fresh, inserted) ↦
      let rows : next.items ≡ db.items ++ item_row it ∷ [] = ap items_of (sym h ∙ inserted) in
      ap (λ (x : Result (Unit {0}) × Database). x.1.items) (sym k) ∙ rows
]

after_blob-appends :
    (it : Item) (db db' : Database) (o : Option ℕ)
    → commit db (after_blob it db o) ≡ (ok tt, db')
    → db'.items ≡ db.items ++ item_row it ∷ []
unfolding commit after_blob
after_blob-appends it db db' none h = cc h
after_blob-appends it db db' (some size) h =
    after_insert-appends it size db db' (insert_row (item_row it) db) refl h

pub insert_item-appends :
    (fault : Bool) (it : Item) (db db' : Database)
    → insert_item fault it db ≡ (ok tt, db')
    → db'.items ≡ db.items ++ item_row it ∷ []
unfolding insert_item insert_item_tx with_tx
insert_item-appends true it db db' h = cc h
insert_item-appends false it db db' h = after_blob-appends it db db' (size_of db.blobs it.hash) h

-- Look-ups in a table that has one more row.
found-again :
    (path : Str) (db db' : Database) (row : ItemRow)
    → db'.items ≡ db.items ++ row ∷ []
    → select (at_path path) db.items ≡ none
    → row.rel_path ≡ path
    → item_at false path db' ≡ done (some (scan_item row))
unfolding item_at item_by_path with_read item_found found_item
found-again path db db' row e h k =
    rw (e, select-append (at_path path) db.items row h, k, str_eq_refl path) refl

kept_row :
    (o o' : Option ItemRow) (it : Item)
    → ((r : ItemRow) → o ≡ some r → o' ≡ some r)
    → found_item o ≡ ok it
    → item_found (found_item o') ≡ done (some it)
unfolding item_found found_item
kept_row none o' it old h = cc h
kept_row (some r) o' it old h = rw (old r refl) (ap (λ (x : Result Item). item_found x) h)

kept :
    (fault : Bool) (path : Str) (db db' : Database) (row : ItemRow) (it : Item)
    → db'.items ≡ db.items ++ row ∷ []
    → item_at fault path db ≡ done (some it)
    → item_at false path db' ≡ done (some it)
unfolding item_at item_by_path with_read item_found found_item
kept fault path db db' row it e h =
    kept_row (select (at_path path) db.items) (select (at_path path) db'.items) it
      (λ r s. rw e (select-append_old (at_path path) db.items row {b = r} s))
      (item_at-some fault path db it h)

module _ (hash : Str) (db db' : Database) (row : ItemRow) (rows : db'.items ≡ db.items ++ row ∷ [])
    (same_hash : row.hash ≡ hash) where
  now_held :
      (r : Resolved) (other : Placed (Resolved × Option Item))
      → (if str_eq row.hash hash then done (r, some (scan_item row)) else other)
        ≡ done (r, some (scan_item row))
  now_held r other = rw (same_hash, str_eq_refl hash) refl

  second-again :
      (fault : Bool) (r r1 : Resolved) (o : Placed (Option Item))
      → item_at fault r.rel_path db ≡ o
      → after_second hash r o ≡ done (r1, none)
      → row.rel_path ≡ r1.rel_path
      → after_second hash r (item_at false r.rel_path db') ≡ done (r1, some (scan_item row))
  unfolding after_second scan_item
  second-again fault r r1 (fail e) h k l = cc k
  second-again fault r r1 (done (some it)) h k l = elim (Bool-cases (str_eq it.hash hash)) [
    | inl t ↦ cc (rw t at k)
    | inr t ↦ cc (rw t at k)
  ]
  second-again fault r r1 (done none) h k l =
      let same : r ≡ r1 = cc k in
      rw
        (found-again r.rel_path db db' row rows (item_at-none fault r.rel_path db h)
          (l ∙ ap (λ (x : Resolved). x.rel_path) (sym same)))
        (now_held r (fail collision) ∙ ap (λ (x : Resolved). done (x, some (scan_item row))) same)

  pub first-again :
      (extra : Segmenter) (fault second : Bool) (r r1 : Resolved) (o : Placed (Option Item))
      → item_at fault r.rel_path db ≡ o
      → after_first extra second hash db r o ≡ done (r1, none)
      → row.rel_path ≡ r1.rel_path
      → after_first extra false hash db' r (item_at false r.rel_path db')
        ≡ done (r1, some (scan_item row))
  unfolding after_first scan_item
  first-again extra fault second r r1 (fail e) h k l = cc k
  first-again extra fault second r r1 (done none) h k l =
      let same : r ≡ r1 = cc k in
      rw
        (found-again r.rel_path db db' row rows (item_at-none fault r.rel_path db h)
          (l ∙ ap (λ (x : Resolved). x.rel_path) (sym same)))
        (now_held r _ ∙ ap (λ (x : Resolved). done (x, some (scan_item row))) same)
  first-again extra fault second r r1 (done (some it)) h k l =
      elim (Bool-cases (str_eq it.hash hash)) [
        | inl t ↦ cc (rw t at k)
        | inr t ↦
            let r' = with_name (suffixed_filename extra r.filename hash) r in
            rw (kept fault r.rel_path db db' row it rows h, t)
              (second-again second r' r1 (item_at second r'.rel_path db) refl (rw t at k) l)
      ]
