-- ===== src/Store/Items/Consistent/Ids.antt =====
-- The ids of items under insertion and deletion.
use homesink.Base.{
  ◌≡◌, refl, ◌∙◌, inl, inr, false, List, [], ◌∷◌, ◌++◌, none, Str, str_eq, str_eq_sound,
  str_eq_refl, select, delete, Bool-cases,
}
use homesink.Base.Table.{select-append_other, select-delete-none}
use homesink.Store.{ItemRow}
use homesink.Store.Stats.Aggregate.{UniqueIds, has_id}

str_eq_apart : (a b : Str) → str_eq a b ≡ false → str_eq b a ≡ false
str_eq_apart a b apart = elim (Bool-cases (str_eq b a)) [
  | inl h ↦ cc (apart, str_eq_refl a, str_eq_sound b a h)
  | inr h ↦ h
]

append_apart :
    (id : Str) (items : List ItemRow) (r : ItemRow)
    → select (has_id id) items ≡ none
    → str_eq r.item_id id ≡ false
    → select (has_id id) (items ++ r ∷ []) ≡ none
append_apart id items r fresh apart = select-append_other (has_id id) items r apart ∙ fresh

pub unique-append :
    (items : List ItemRow) (r : ItemRow)
    → select (has_id r.item_id) items ≡ none
    → UniqueIds items
    → UniqueIds (items ++ r ∷ [])
unfolding select
unique-append [] r f u = (refl, tt)
unique-append (it ∷ items) r f u = elim (Bool-cases (str_eq it.item_id r.item_id)) [
  | inl same ↦ cc (rw same at f)
  | inr other ↦ (
    append_apart it.item_id items r u.0 (str_eq_apart it.item_id r.item_id other),
    unique-append items r (rw other at f) u.1,
  )
]

pub unique-delete :
    (id : Str) (items : List ItemRow) → UniqueIds items → UniqueIds (delete (has_id id) items)
unfolding delete
unique-delete id [] u = tt
unique-delete id (it ∷ items) u = elim (Bool-cases (has_id id it)) [
  | inl same ↦ rw same (unique-delete id items u.1)
  | inr other ↦
      rw other
        (select-delete-none (has_id id) (has_id it.item_id) items u.0, unique-delete id items u.1)
]
