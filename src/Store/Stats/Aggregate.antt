-- ===== src/Store/Stats/Aggregate.antt =====
-- One group of the aggregate, when an item joins or leaves it.
use homesink.Base.{
  ℕ, suc, ◌+◌, ◌≡◌, refl, ap, subst, ◌∙◌, inl, inr, Bool, true, false, List, [], ◌∷◌, ◌++◌, map,
  keep, length, length-append, Option, none, some, Str, str_eq, str_eq_sound, str_eq_refl, arith,
  select, delete, Bool-cases,
}
use homesink.Base.Int.{ℤ, pos, plus_ℕ, minus_ℕ, max_ℤ, eqb_ℤ_iff, ltb_ℤ}
use homesink.Base.Table.{delete-none}
use homesink.Store.{BlobRow, ItemRow, StatRow}
use homesink.Store.Stats.{
  Key, key_eq, key_of, stat_key, is_key, in_key, size_of, add_size, total, latest_from, latest,
  group_row, increment, decrement, is_empty,
}

pub key_eq_sound : (a b : Key) → key_eq a b ≡ true → a ≡ b
unfolding key_eq
key_eq_sound a b h = ground (arith, str_eq_sound a.album b.album, eqb_ℤ_iff a.year b.year)

pub key_eq_refl : (k : Key) → key_eq k k ≡ true
unfolding key_eq
key_eq_refl k = ground (arith, str_eq_refl k.album)

-- A row of one key is of no other.
pub key_eq_apart : (a k k' : Key) → key_eq k k' ≡ false → key_eq a k ≡ true → key_eq a k' ≡ false
key_eq_apart a k k' apart same = rw (key_eq_sound a k same) apart

add_size-plus : (o : Option ℕ) (a b size : ℕ) → a ≡ b + size → add_size o a ≡ add_size o b + size
add_size-plus none a b size e = e
add_size-plus (some n) a b size e = omega arith

total-snoc :
    (blobs : List BlobRow) (items : List ItemRow) (r : ItemRow) (size : ℕ)
    → size_of blobs r.hash ≡ some size
    → total blobs (items ++ r ∷ []) ≡ total blobs items + size
unfolding total
total-snoc blobs [] r size e = ap (λ o. add_size o 0) e ∙ omega arith
total-snoc blobs (it ∷ items) r size e =
    add_size-plus (size_of blobs it.hash) _ _ size (total-snoc blobs items r size e)

latest-snoc :
    (m : ℤ) (items : List ItemRow) (r : ItemRow)
    → latest_from m (items ++ r ∷ []) ≡ max_ℤ (latest_from m items) r.captured_at_ms
unfolding latest_from
latest-snoc m [] r = refl
latest-snoc m (it ∷ items) r = latest-snoc (max_ℤ m it.captured_at_ms) items r

-- The increment of a group's row is the row of the group with one more item.
pub increment-group :
    (k : Key) (blobs : List BlobRow) (it : ItemRow) (items : List ItemRow) (r : ItemRow) (size : ℕ)
    → size_of blobs r.hash ≡ some size
    → map (increment size r.captured_at_ms) (group_row k blobs (it ∷ items))
      ≡ group_row k blobs ((it ∷ items) ++ r ∷ [])
unfolding increment group_row plus_ℕ latest
increment-group k blobs it items r size e =
    let count : length ((it ∷ items) ++ r ∷ []) ≡ length (it ∷ items) + 1 =
      length-append (it ∷ items) (r ∷ []) in
    rw (total-snoc blobs (it ∷ items) r size e, latest-snoc it.captured_at_ms items r, count) refl

-- No two items have the same id.
abbrev pub UniqueIds : List ItemRow → Type 0
UniqueIds [] = Unit {0}
UniqueIds (it ∷ items) =
    (select (λ (r : ItemRow). str_eq r.item_id it.item_id) items ≡ none) × UniqueIds items

-- A group before the item with the id `id`, of the size `size`, leaves it.
abbrev pub Left : List BlobRow → Key → Str → ℕ → List ItemRow → Type 0
Left blobs k id size items =
    let left = keep (in_key k) (delete (λ (r : ItemRow). str_eq r.item_id id) items) in
    (length (keep (in_key k) items) ≡ suc (length left))
    × (total blobs (keep (in_key k) items) ≡ total blobs left + size)

add_size-left : (o : Option ℕ) (a b size : ℕ) → o ≡ some size → a ≡ b → add_size o a ≡ b + size
add_size-left none a b size e h = cc
add_size-left (some n) a b size e h = ground arith

some_row : {r r' : ItemRow} → some r ≡ some r' → r ≡ r'
some_row e = cc

abbrev pub has_id : Str → ItemRow → Bool
has_id id r = str_eq r.item_id id

delete_only :
    (it : ItemRow) (items : List ItemRow) (id : Str)
    → str_eq it.item_id id ≡ true
    → UniqueIds (it ∷ items)
    → delete (has_id id) (it ∷ items) ≡ items
unfolding delete
delete_only it items id same u =
    let only : select (has_id id) items ≡ none =
      subst (λ (i : Str). select (has_id i) items ≡ none) (str_eq_sound it.item_id id same) u.0 in
    rw same (delete-none (has_id id) items only)

Left-here :
    (blobs : List BlobRow) (it : ItemRow) (items : List ItemRow) (id : Str) (size : ℕ)
    → str_eq it.item_id id ≡ true
    → UniqueIds (it ∷ items)
    → size_of blobs it.hash ≡ some size
    → Left blobs (key_of it) id size (it ∷ items)
unfolding total
Left-here blobs it items id size same u e =
    rw (delete_only it items id same u, key_eq_refl (key_of it))
      (refl, add_size-left (size_of blobs it.hash) _ _ size e refl)

pub group-Left :
    (blobs : List BlobRow) (items : List ItemRow) (id : Str) (size : ℕ) (r : ItemRow)
    → UniqueIds items
    → select (has_id id) items ≡ some r
    → size_of blobs r.hash ≡ some size
    → Left blobs (key_of r) id size items
unfolding select delete total
group-Left blobs [] id size r u f e = cc
group-Left blobs (it ∷ items) id size r u f e = elim (Bool-cases (has_id id it)) [
  | inl same ↦
      let is : it ≡ r = some_row (rw same at f) in
      subst (λ (x : ItemRow). Left blobs (key_of x) id size (it ∷ items)) is
        (Left-here blobs it items id size same u
          (ap (λ (x : ItemRow). size_of blobs x.hash) is ∙ e))
  | inr other ↦
      let (count, sum) = group-Left blobs items id size r u.1 (rw other at f) e in
      rw other (elim (Bool-cases (in_key (key_of r) it)) [
        | inl mine ↦ rw mine (ap suc count, add_size-plus (size_of blobs it.hash) _ _ size sum)
        | inr not_mine ↦ rw not_mine (count, sum)
      ])
]

-- The groups of the other keys keep their items.
pub group-kept :
    (items : List ItemRow) (id : Str) (r : ItemRow) (k : Key)
    → UniqueIds items
    → select (has_id id) items ≡ some r
    → key_eq (key_of r) k ≡ false
    → keep (in_key k) (delete (has_id id) items) ≡ keep (in_key k) items
unfolding select delete
group-kept [] id r k u f apart = cc
group-kept (it ∷ items) id r k u f apart = elim (Bool-cases (has_id id it)) [
  | inl same ↦
      let is : it ≡ r = some_row (rw same at f) in
      let out : in_key k it ≡ false = rw is apart in rw (delete_only it items id same u, out) refl
  | inr other ↦
      let rest = group-kept items id r k u.1 (rw other at f) apart in
      rw other (elim (Bool-cases (in_key k it)) [
        | inl mine ↦ rw mine (ap (◌∷◌ it) rest)
        | inr not_mine ↦ rw not_mine rest
      ])
]

pub keeps_key :
    (k : Key) (f : StatRow → StatRow)
    → ((x : StatRow) → stat_key (f x) ≡ stat_key x)
    → (x : StatRow) → is_key k x ≡ true
    → is_key k (f x) ≡ true
keeps_key k f same x h = ap (λ (a : Key). key_eq a k) (same x) ∙ h

minus-one : (n : ℕ) → minus_ℕ (pos (suc n)) 1 ≡ pos n
unfolding minus_ℕ
minus-one n = ground arith

minus-sum : (a b : ℕ) → minus_ℕ (pos (a + b)) b ≡ pos a
unfolding minus_ℕ
minus-sum a b = ground arith

pub decrement-group :
    (k : Key) (blobs : List BlobRow) (members left : List ItemRow) (size : ℕ)
    → length members ≡ suc (length left)
    → total blobs members ≡ total blobs left + size
    → delete (is_empty k) (map (decrement size (latest left)) (group_row k blobs members))
      ≡ group_row k blobs left
unfolding delete decrement group_row
decrement-group k blobs [] left size n t = absurd (omega arith)
decrement-group k blobs (m ∷ ms) [] size n t =
    let none_left : minus_ℕ (pos (length (m ∷ ms))) 1 ≡ pos 0 =
      ap (λ i. minus_ℕ (pos i) 1) n ∙ minus-one 0 in
    rw (none_left, key_eq_refl k) refl
decrement-group k blobs (m ∷ ms) (l ∷ ls) size n t =
    let some_left : minus_ℕ (pos (length (m ∷ ms))) 1 ≡ pos (length (l ∷ ls)) =
      ap (λ i. minus_ℕ (pos i) 1) n ∙ minus-one (length (l ∷ ls)) in
    let sum : minus_ℕ (pos (total blobs (m ∷ ms))) size ≡ pos (total blobs (l ∷ ls)) =
      ap (λ i. minus_ℕ (pos i) size) t ∙ minus-sum (total blobs (l ∷ ls)) size in
    let full : ltb_ℤ (pos (length (l ∷ ls))) (pos 1) ≡ false = ground arith in
    rw (some_left, sum, key_eq_refl k, full) refl
