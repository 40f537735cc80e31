-- ===== src/Store/Items/Consistent/Sizes.antt =====
-- Changes of the blobs table that keep the sizes of the items placed.
use homesink.Base.{
  ◌≡◌, refl, sym, ap, ap₂, ◌∙◌, inl, inr, true, List, [], ◌∷◌, ◌++◌, All-keep, Str, arith, select,
  update, Option-cases, All,
}
use homesink.Base.Table.{select-append_old}
use homesink.Store.{Database, BlobRow, ItemRow}
use homesink.Store.Blobs.{is_blob}
use homesink.Store.Stats.{
  Key, in_key, size_of, total, add_size, size, has_hash, holds, is_joined, group_row,
}
use homesink.Store.Stats.Derived.{IsConsistent, members}

-- Blobs that have the same sizes for the items placed.
abbrev pub SameSizes : List BlobRow → List BlobRow → List ItemRow → Type 0
SameSizes old new items = All (λ (it : ItemRow). size_of new it.hash ≡ size_of old it.hash) items

total-same :
    (old new : List BlobRow) (items : List ItemRow)
    → SameSizes old new items
    → total new items ≡ total old items
unfolding total
total-same old new [] s = refl
total-same old new (it ∷ items) s = ap₂ add_size s.0 (total-same old new items s.1)

group-same :
    (k : Key) (old new : List BlobRow) (items : List ItemRow)
    → SameSizes old new items
    → group_row k old items ≡ group_row k new items
unfolding group_row
group-same k old new [] s = refl
group-same k old new (it ∷ items) s = rw (total-same old new (it ∷ items) s) refl

placed-same :
    (old new : List BlobRow) (items : List ItemRow)
    → SameSizes old new items
    → All (λ it. is_joined old it ≡ true) items
    → All (λ it. is_joined new it ≡ true) items
placed-same old new [] s p = tt
placed-same old new (it ∷ items) s p = (ap holds s.0 ∙ p.0, placed-same old new items s.1 p.1)

pub blobs-IsConsistent :
    (db : Database) (new : List BlobRow)
    → SameSizes db.blobs new db.items
    → IsConsistent db
    → IsConsistent (record db { blobs = new })
blobs-IsConsistent db new s c = record {
  unique = c.unique;
  placed = placed-same db.blobs new db.items s c.placed;
  counted = λ k.
      c.counted k
      ∙ group-same k db.blobs new (members k db) (
          All-keep (λ (it : ItemRow). size_of new it.hash ≡ size_of db.blobs it.hash) (in_key k)
            db.items s);
}

size-append :
    (blobs : List BlobRow) (b : BlobRow) (h : Str)
    → holds (size_of blobs h) ≡ true
    → size_of (blobs ++ b ∷ []) h ≡ size_of blobs h
unfolding size_of
size-append blobs b h p = elim (Option-cases (select (has_hash h) blobs)) [
  | inl e ↦ cc (p, e)
  | inr (r, e) ↦ ap size (select-append_old (has_hash h) blobs b e ∙ sym e)
]

pub append-SameSizes :
    (blobs : List BlobRow) (b : BlobRow) (items : List ItemRow)
    → All (λ it. is_joined blobs it ≡ true) items
    → SameSizes blobs (blobs ++ b ∷ []) items
append-SameSizes blobs b [] p = tt
append-SameSizes blobs b (it ∷ items) p =
    (size-append blobs b it.hash p.0, append-SameSizes blobs b items p.1)

-- An update that keeps hash and size.
update-size :
    (h x : Str) (f : BlobRow → BlobRow) (blobs : List BlobRow)
    → ((b : BlobRow) → (f b).hash ≡ b.hash)
    → ((b : BlobRow) → (f b).size_bytes ≡ b.size_bytes)
    → size_of (update (is_blob h) f blobs) x ≡ size_of blobs x
unfolding size_of select update
update-size h x f [] hash size = refl
update-size h x f (b ∷ blobs) hash size =
    ground (arith, hash b, size b, update-size h x f blobs hash size)

pub update-SameSizes :
    (h : Str) (f : BlobRow → BlobRow) (blobs : List BlobRow) (items : List ItemRow)
    → ((b : BlobRow) → (f b).hash ≡ b.hash)
    → ((b : BlobRow) → (f b).size_bytes ≡ b.size_bytes)
    → SameSizes blobs (update (is_blob h) f blobs) items
update-SameSizes h f blobs [] hash size = tt
update-SameSizes h f blobs (it ∷ items) hash size =
    (update-size h it.hash f blobs hash size, update-SameSizes h f blobs items hash size)
