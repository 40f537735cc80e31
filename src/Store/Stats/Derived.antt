-- ===== src/Store/Stats/Derived.antt =====
-- Invariant S3 of backend/internal/store: album_stats against the aggregate of items.
use homesink.Base.{
  ℕ, suc, ◌+◌, ◌≡◌, refl, sym, ap, subst, ◌∙◌, inl, inr, true, false, List, [], ◌∷◌, ◌++◌, map,
  keep, keep-append_in, keep-append_out, keep_all, All-keep, length, head?, none, some, Str, arith,
  select, update, delete, Bool-cases, Option-cases, All,
}
use homesink.Base.Int.{ℤ}
use homesink.Base.Table.{
  keep-update_self, keep-update_other, keep-delete, delete_other, select-keep,
}
use homesink.Store.{Database, BlobRow, ItemRow, StatRow}
use homesink.Store.Stats.{
  Key, key_eq, key_of, stat_key, is_key, in_key, size_of, add_size, total, latest, latest_from,
  is_joined, group_row, derive_group, increment, decrement, is_empty, first_row, upsert,
  add_to_album_stats_tx, remove_from_album_stats_tx,
}
use homesink.Store.Stats.Aggregate.{
  key_eq_sound, key_eq_refl, key_eq_apart, increment-group, UniqueIds, has_id, group-Left,
  group-kept, keeps_key, decrement-group,
}

abbrev pub members : Key → Database → List ItemRow
members k db = keep (in_key k) db.items

abbrev pub stats_of : Key → Database → List StatRow
stats_of k db = keep (is_key k) db.album_stats

-- Item ids are unique, every item has its blob, and every key's row is that of its group.
pub record IsConsistent (db : Database) : Type 0 where
  pub unique : UniqueIds db.items
  pub placed : All (λ it. is_joined db.blobs it ≡ true) db.items
  pub counted : (k : Key) → stats_of k db ≡ group_row k db.blobs (members k db)

add-same :
    (k : Key) (db : Database) (blobs : List BlobRow) (items : List ItemRow) (r : ItemRow) (size : ℕ)
    → key_of r ≡ k
    → size_of blobs r.hash ≡ some size
    → stats_of k db ≡ group_row k blobs items
    → stats_of k (add_to_album_stats_tx k size r.captured_at_ms db)
      ≡ group_row k blobs (items ++ r ∷ [])
unfolding add_to_album_stats_tx upsert increment group_row total latest latest_from
add-same k db blobs [] r size e s h =
    let fresh : select (is_key k) db.album_stats ≡ none =
      select-keep (is_key k) db.album_stats ∙ ap head? h in
    let sum : add_size (size_of blobs r.hash) 0 ≡ size = ap (λ o. add_size o 0) s ∙ omega arith in
    ap (λ o. keep (is_key k) (upsert k size r.captured_at_ms o db.album_stats)) fresh
    ∙ keep-append_in (is_key k) db.album_stats (first_row k size r.captured_at_ms) (key_eq_refl k)
    ∙ ap (λ (rows : List StatRow). rows ++ first_row k size r.captured_at_ms ∷ []) h
    ∙ rw sum refl
add-same k db blobs (it ∷ items) r size e s h =
    let old = select-keep (is_key k) db.album_stats ∙ ap head? h in
    ap (λ o. keep (is_key k) (upsert k size r.captured_at_ms o db.album_stats)) old
    ∙ keep-update_self (is_key k) (increment size r.captured_at_ms) db.album_stats
        (keeps_key k (increment size r.captured_at_ms) (λ x. refl))
    ∙ ap (map (increment size r.captured_at_ms)) h
    ∙ increment-group k blobs it items r size s

apart_rows :
    (k0 k : Key) → key_eq k0 k ≡ false → (x : StatRow) → is_key k0 x ≡ true → is_key k x ≡ false
apart_rows k0 k apart x h = key_eq_apart (stat_key x) k0 k apart h

add-other :
    (k0 k : Key) (size : ℕ) (captured : ℤ) (db : Database)
    → key_eq k0 k ≡ false
    → stats_of k (add_to_album_stats_tx k0 size captured db) ≡ stats_of k db
unfolding add_to_album_stats_tx upsert increment
add-other k0 k size captured db apart = elim (Option-cases (select (is_key k0) db.album_stats)) [
  | inl e ↦
      ap (λ o. keep (is_key k) (upsert k0 size captured o db.album_stats)) e
      ∙ (keep-append_out (is_key k) db.album_stats _ apart)
  | inr (r, e) ↦
      ap (λ o. keep (is_key k) (upsert k0 size captured o db.album_stats)) e
      ∙ (keep-update_other (is_key k0) (is_key k) (increment size captured) db.album_stats
          (apart_rows k0 k apart) (apart_rows k0 k apart))
]

remove-same :
    (k : Key) (db : Database) (blobs : List BlobRow) (items : List ItemRow) (size : ℕ)
    → stats_of k db ≡ group_row k blobs items
    → length items ≡ suc (length (members k db))
    → total blobs items ≡ total blobs (members k db) + size
    → stats_of k (remove_from_album_stats_tx k size db) ≡ group_row k blobs (members k db)
unfolding remove_from_album_stats_tx decrement
remove-same k db blobs items size h n t =
    let f : StatRow → StatRow = decrement size (latest (members k db)) in
    keep-delete (is_empty k) (is_key k) (update (is_key k) f db.album_stats)
    ∙ ap (delete (is_empty k))
        (keep-update_self (is_key k) f db.album_stats (keeps_key k f (λ x. refl)) ∙ ap (map f) h)
    ∙ decrement-group k blobs items (members k db) size n t

not_empty :
    (k0 k : Key) → key_eq k0 k ≡ false → (x : StatRow) → is_key k x ≡ true → is_empty k0 x ≡ false
not_empty k0 k apart x mine = elim (Bool-cases (is_key k0 x)) [
  | inl h ↦ cc (mine, apart_rows k0 k apart x h)
  | inr h ↦ rw h refl
]

remove-other :
    (k0 k : Key) (size : ℕ) (db : Database)
    → key_eq k0 k ≡ false
    → stats_of k (remove_from_album_stats_tx k0 size db) ≡ stats_of k db
unfolding remove_from_album_stats_tx decrement
remove-other k0 k size db apart =
    let f : StatRow → StatRow = decrement size (latest (members k0 db)) in
    let others : keep (is_key k) (update (is_key k0) f db.album_stats) ≡ stats_of k db =
      keep-update_other (is_key k0) (is_key k) f db.album_stats (apart_rows k0 k apart)
        (apart_rows k0 k apart) in
    keep-delete (is_empty k0) (is_key k) (update (is_key k0) f db.album_stats)
    ∙ delete_other (is_empty k0) (is_key k) (update (is_key k0) f db.album_stats)
        (not_empty k0 k apart)
    ∙ others

-- The aggregate that DeriveAlbumStats recomputes for a key is what album_stats holds of it.
pub derived : (db : Database) (k : Key) → IsConsistent db → derive_group k db ≡ stats_of k db
unfolding derive_group
derived db k c =
    ap (group_row k db.blobs) (
      keep_all (is_joined db.blobs) (members k db)
        (All-keep (λ it. is_joined db.blobs it ≡ true) (in_key k) db.items c.placed))
    ∙ sym (c.counted k)

abbrev pub Counted : Database → Type 0
Counted db = (k : Key) → stats_of k db ≡ group_row k db.blobs (members k db)

-- One more item, with its increment, keeps the counters.
pub add-Counted :
    (db : Database) (r : ItemRow) (size : ℕ)
    → size_of db.blobs r.hash ≡ some size
    → Counted db
    → Counted (
        add_to_album_stats_tx
          (key_of r)
          size
          r.captured_at_ms
          (record db { items = db.items ++ r ∷ [] }))
unfolding add_to_album_stats_tx
add-Counted db r size s c k = elim (Bool-cases (key_eq (key_of r) k)) [
  | inl same ↦
      subst
        (λ (a : Key).
          stats_of a (
            add_to_album_stats_tx (key_of r) size r.captured_at_ms
              (record db { items = db.items ++ r ∷ [] }))
          ≡ group_row a db.blobs (keep (in_key a) (db.items ++ r ∷ [])))
        (key_eq_sound (key_of r) k same)
        (add-same (key_of r) (record db { items = db.items ++ r ∷ [] }) db.blobs
            (members (key_of r) db) r size refl s (c (key_of r))
          ∙ ap (group_row (key_of r) db.blobs)
              (sym (keep-append_in (in_key (key_of r)) db.items r (key_eq_refl (key_of r)))))
  | inr other ↦
      add-other (key_of r) k size r.captured_at_ms (record db { items = db.items ++ r ∷ [] }) other
      ∙ c k
      ∙ ap (group_row k db.blobs) (sym (keep-append_out (in_key k) db.items r other))
]

-- One item less, with its decrement, keeps the counters.
pub remove-Counted :
    (db : Database) (id : Str) (r : ItemRow) (size : ℕ)
    → UniqueIds db.items
    → select (has_id id) db.items ≡ some r
    → size_of db.blobs r.hash ≡ some size
    → Counted db
    → Counted (
        remove_from_album_stats_tx
          (key_of r)
          size
          (record db { items = delete (has_id id) db.items }))
unfolding remove_from_album_stats_tx
remove-Counted db id r size u f s c k = elim (Bool-cases (key_eq (key_of r) k)) [
  | inl same ↦
      let left = group-Left db.blobs db.items id size r u f s in
      subst
        (λ (a : Key).
          stats_of a (
            remove_from_album_stats_tx (key_of r) size
              (record db { items = delete (has_id id) db.items }))
          ≡ group_row a db.blobs (keep (in_key a) (delete (has_id id) db.items)))
        (key_eq_sound (key_of r) k same)
        (remove-same (key_of r) (record db { items = delete (has_id id) db.items }) db.blobs
          (members (key_of r) db) size (c (key_of r)) left.0 left.1)
  | inr other ↦
      remove-other (key_of r) k size (record db { items = delete (has_id id) db.items }) other
      ∙ c k
      ∙ ap (group_row k db.blobs) (sym (group-kept db.items id r k u f other))
]
