-- ===== src/Store/Stats/Groups.antt =====
-- DeriveAlbumStats: its rows by the key, among the groups that GROUP BY makes and ORDER BY sorts.
use homesink.Base.{
  ◌≡◌, refl, sym, ap, ap₂, subst, ◌∙◌, inl, inr, Bool, true, false, List, [], ◌∷◌, ◌++◌, map, keep,
  head?, Option, none, some, select, Bool-cases, Option-cases,
}
use homesink.Base.Single.{AtMostOne, keep-sort, keep-append, append_nil}
use homesink.Base.Sort.{sort}
use homesink.Base.Table.{select-keep}
use homesink.Store.{Database, BlobRow, ItemRow, StatRow, Result, ok, err, not_found, with_read}
use homesink.Store.Stats.{
  AlbumStat, Key, key_eq, key_of, is_key, in_key, scan_album_stat, found_stat, stat_before, holds,
  is_joined, group_row, derive_group, derive_groups, derive_album_stats,
}
use homesink.Store.Stats.Aggregate.{key_eq_sound, key_eq_refl}

module _ {ℓ} {A : Type ℓ} (p : A → Bool) where
  select-none-keep : (xs : List A) → holds (select p xs) ≡ false → keep p xs ≡ []
  unfolding select
  select-none-keep [] h = refl
  select-none-keep (x ∷ xs) h = elim (Bool-cases (p x)) [
    | inl t ↦ cc (rw t at h)
    | inr t ↦ rw t (select-none-keep xs (rw t at h))
  ]

-- The row of a group has the key of the group.
group-mine :
    (k : Key) (blobs : List BlobRow) (items : List ItemRow)
    → keep (is_key k) (group_row k blobs items) ≡ group_row k blobs items
unfolding group_row
group-mine k blobs [] = refl
group-mine k blobs (it ∷ items) = rw (key_eq_refl k) refl

group-other :
    (k k' : Key) (blobs : List BlobRow) (items : List ItemRow)
    → key_eq k' k ≡ false
    → keep (is_key k) (group_row k' blobs items) ≡ []
unfolding group_row
group-other k k' blobs [] h = refl
group-other k k' blobs (it ∷ items) h = rw h refl

group-AtMostOne :
    (k : Key) (blobs : List BlobRow) (items : List ItemRow) → AtMostOne (group_row k blobs items)
unfolding group_row
group-AtMostOne k blobs [] = tt
group-AtMostOne k blobs (it ∷ items) = tt

apart : (a b : Key) → key_eq a b ≡ false → key_eq b a ≡ false
apart a b h = elim (Bool-cases (key_eq b a)) [
  | inl t ↦ cc (sym h ∙ ap (key_eq a) (key_eq_sound b a t) ∙ key_eq_refl a)
  | inr t ↦ t
]

-- A step of GROUP BY: a key met before, or a new one.
step-met :
    (it : ItemRow) (items : List ItemRow) (seen : List Key) (db : Database) (met : Key)
    → select (key_eq (key_of it)) seen ≡ some met
    → derive_groups (it ∷ items) seen db ≡ derive_groups items seen db
unfolding derive_groups
step-met it items seen db met e = rw (derive_groups, e) refl

step-new :
    (it : ItemRow) (items : List ItemRow) (seen : List Key) (db : Database)
    → select (key_eq (key_of it)) seen ≡ none
    → derive_groups (it ∷ items) seen db
      ≡ derive_group (key_of it) db ++ derive_groups items (key_of it ∷ seen) db
unfolding derive_groups
step-new it items seen db e = rw (derive_groups, e) refl

-- What a new group adds to the rows of a key.
new-other :
    (k : Key) (it : ItemRow) (items : List ItemRow) (seen : List Key) (db : Database)
    → select (key_eq (key_of it)) seen ≡ none
    → key_eq (key_of it) k ≡ false
    → keep (is_key k) (derive_groups (it ∷ items) seen db)
      ≡ keep (is_key k) (derive_groups items (key_of it ∷ seen) db)
unfolding derive_group
new-other k it items seen db e other =
    ap (keep (is_key k)) (step-new it items seen db e)
    ∙ keep-append (is_key k) (derive_group (key_of it) db)
        (derive_groups items (key_of it ∷ seen) db)
    ∙ ap
        (λ (rows : List StatRow).
          rows ++ keep (is_key k) (derive_groups items (key_of it ∷ seen) db))
        (group-other k (key_of it) db.blobs
          (keep (is_joined db.blobs) (keep (in_key (key_of it)) db.items)) other)

new-mine :
    (it : ItemRow) (items : List ItemRow) (seen : List Key) (db : Database)
    → select (key_eq (key_of it)) seen ≡ none
    → keep (is_key (key_of it)) (derive_groups items (key_of it ∷ seen) db) ≡ []
    → keep (is_key (key_of it)) (derive_groups (it ∷ items) seen db) ≡ derive_group (key_of it) db
unfolding derive_group
new-mine it items seen db e rest =
    ap (keep (is_key (key_of it))) (step-new it items seen db e)
    ∙ keep-append (is_key (key_of it)) (derive_group (key_of it) db)
        (derive_groups items (key_of it ∷ seen) db)
    ∙ ap₂ ◌++◌
        (group-mine (key_of it) db.blobs
          (keep (is_joined db.blobs) (keep (in_key (key_of it)) db.items)))
        rest
    ∙ append_nil (derive_group (key_of it) db)

module _ (k : Key) (db : Database) where
  -- The groups made of a list of items, where the keys of `seen` are left out.
  abbrev made : List ItemRow → List Key → List StatRow
  made items seen = keep (is_key k) (derive_groups items seen db)

  seen-made :
      (items : List ItemRow) (seen : List Key)
      → holds (select (key_eq k) seen) ≡ true
      → made items seen ≡ []
  unfolding derive_groups derive_group select
  seen-made [] seen h = refl
  seen-made (it ∷ items) seen h = elim (Option-cases (select (key_eq (key_of it)) seen)) [
    | inr (met, e) ↦ ap (keep (is_key k)) (step-met it items seen db met e) ∙ seen-made items seen h
    | inl e ↦
        let other : key_eq (key_of it) k ≡ false = elim (Bool-cases (key_eq (key_of it) k)) [
          | inl t ↦ cc (
              sym h
              ∙ ap (λ (x : Key). holds (select (key_eq x) seen))
                  (sym (key_eq_sound (key_of it) k t))
              ∙ ap holds e)
          | inr t ↦ t
        ] in
        new-other k it items seen db e other
        ∙ seen-made items (key_of it ∷ seen) (rw (apart (key_of it) k other) h)
  ]

  absent-made :
      (items : List ItemRow) (seen : List Key)
      → holds (select (in_key k) items) ≡ false
      → made items seen ≡ []
  unfolding derive_groups select
  absent-made [] seen h = refl
  absent-made (it ∷ items) seen h = elim (Bool-cases (in_key k it)) [
    | inl t ↦ cc (rw t at h)
    | inr other ↦ elim (Option-cases (select (key_eq (key_of it)) seen)) [
      | inr (met, e) ↦
          ap (keep (is_key k)) (step-met it items seen db met e)
          ∙ absent-made items seen (rw other at h)
      | inl e ↦
          new-other k it items seen db e other
          ∙ absent-made items (key_of it ∷ seen) (rw other at h)
    ]
  ]

  first-made :
      (it : ItemRow) (items : List ItemRow) (seen : List Key)
      → holds (select (key_eq k) seen) ≡ false
      → key_of it ≡ k
      → made (it ∷ items) seen ≡ derive_group k db
  unfolding select
  first-made it items seen h same = elim (Option-cases (select (key_eq k) seen)) [
    | inr (met, e) ↦ cc (sym h ∙ ap holds e)
    | inl e ↦
        let unseen : select (key_eq (key_of it)) seen ≡ none =
          ap (λ (x : Key). select (key_eq x) seen) same ∙ e in
        let rest : made items (k ∷ seen) ≡ [] =
          seen-made items (k ∷ seen) (rw (key_eq_refl k) refl) in
        subst
          (λ (x : Key). keep (is_key x) (derive_groups (it ∷ items) seen db) ≡ derive_group x db)
          same
          (new-mine it items seen db unseen (
            subst (λ (x : Key). keep (is_key x) (derive_groups items (x ∷ seen) db) ≡ []) (sym same)
              rest))
  ]

  found-made :
      (items : List ItemRow) (seen : List Key)
      → holds (select (key_eq k) seen) ≡ false
      → holds (select (in_key k) items) ≡ true
      → made items seen ≡ derive_group k db
  unfolding select
  found-made [] seen h m = cc m
  found-made (it ∷ items) seen h m = elim (Bool-cases (in_key k it)) [
    | inl mine ↦ first-made it items seen h (key_eq_sound (key_of it) k mine)
    | inr other ↦ elim (Option-cases (select (key_eq (key_of it)) seen)) [
      | inr (met, e) ↦
          ap (keep (is_key k)) (step-met it items seen db met e)
          ∙ found-made items seen h (rw other at m)
      | inl e ↦
          new-other k it items seen db e other
          ∙ found-made items (key_of it ∷ seen) (rw (apart (key_of it) k other) h) (rw other at m)
    ]
  ]

  groups-derive_group : made db.items [] ≡ derive_group k db
  unfolding derive_group group_row select
  groups-derive_group = elim (Bool-cases (holds (select (in_key k) db.items))) [
    | inl t ↦ found-made db.items [] refl t
    | inr t ↦ absent-made db.items [] t ∙ rw (select-none-keep (in_key k) db.items t) refl
  ]

-- What DeriveAlbumStats says of a key, as AlbumStat would answer: the row of the key.
abbrev pub is_stat_of : Key → AlbumStat → Bool
is_stat_of k s = key_eq (record { album = s.album; year = s.year; month = s.month }) k

abbrev pub found_in : Option AlbumStat → Result AlbumStat
found_in none = err not_found
found_in (some s) = ok s

abbrev pub stat_among : Key → Result (List AlbumStat) → Result AlbumStat
stat_among k (err e) = err e
stat_among k (ok stats) = found_in (select (is_stat_of k) stats)

select-scan :
    (k : Key) (rows : List StatRow)
    → found_in (select (is_stat_of k) (map scan_album_stat rows))
      ≡ found_stat (select (is_key k) rows)
unfolding select scan_album_stat found_stat
select-scan k [] = refl
select-scan k (r ∷ rows) = elim (Bool-cases (is_key k r)) [
  | inl t ↦ rw t refl
  | inr t ↦ rw t (select-scan k rows)
]

pub stat_among-derive_group :
    (k : Key) (db : Database)
    → stat_among k (derive_album_stats false db) ≡ found_stat (head? (derive_group k db))
unfolding derive_album_stats with_read derive_group
stat_among-derive_group k db =
    let groups = groups-derive_group k db in
    let single =
      subst AtMostOne (sym groups)
        (group-AtMostOne k db.blobs (keep (is_joined db.blobs) (keep (in_key k) db.items))) in
    select-scan k (sort stat_before (derive_groups db.items [] db))
    ∙ ap found_stat (
        select-keep (is_key k) (sort stat_before (derive_groups db.items [] db))
        ∙ ap head?
            (keep-sort stat_before (is_key k) (derive_groups db.items [] db) single ∙ groups))
