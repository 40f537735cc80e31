-- ===== src/Base/Sort.antt =====
-- ORDER BY and sort.Slice: insertion sort by a Boolean "comes before", which keeps equal rows in
-- their order.
use mathlib.Core.Bool.{Bool, true, false}
use mathlib.Core.List.{List, [], ◌∷◌}
use mathlib.Core.Logic.{◌⊎◌, inl, inr}
use mathlib.Core.Option.{Option, none, some}
use mathlib.Core.Path.{◌≡◌, refl, subst}
use native.Mathlib.Omega.{arith}
use homesink.Base.Tests.{if◌then◌else◌, Bool-cases}
use homesink.Base.Lists.{All, keep, head?}

module _ {ℓ} {A : Type ℓ} where
  module _ (before : A → A → Bool) where
    unfoldable pub insert : A → List A → List A
    insert x [] = x ∷ []
    insert x (y ∷ ys) = if before y x then y ∷ insert x ys else x ∷ y ∷ ys

    unfoldable pub sort : List A → List A
    unfolding insert
    sort [] = []
    sort (x ∷ xs) = insert x (sort xs)

  -- No row of the list comes before `x`.
  abbrev pub IsLeast : (A → A → Bool) → A → List A → Type 0
  IsLeast before x xs = All (λ y. before y x ≡ false) xs

  pub keep-All : (p : A → Bool) (xs : List A) → All (λ x. p x ≡ true) (keep p xs)
  keep-All p [] = tt
  keep-All p (x ∷ xs) = elim (Bool-cases (p x)) [
    | inl h ↦ rw h (h, keep-All p xs)
    | inr h ↦ rw h (keep-All p xs)
  ]

same {ℓ} : {A : Type ℓ} {o : Option A} {x y : A} → o ≡ some x → o ≡ some y → x ≡ y
same p q = cc

-- The laws of an order that `sort` needs: a row is not before itself, and "not before" is
-- transitive.
pub record IsOrder {ℓ} {A : Type ℓ} (before : A → A → Bool) : Type ℓ where
  pub irrefl : (x : A) → before x x ≡ false
  pub asymm : (x y : A) → before x y ≡ true → before y x ≡ false
  pub trans : (x y z : A) → before y x ≡ false → before z y ≡ false → before z x ≡ false

module _ {ℓ} {A : Type ℓ} (before : A → A → Bool) where
  insert-head :
      (x : A) (ys : List A)
      → ((head? (insert before x ys) ≡ some x) × (head? ys ≡ none))
        ⊎ ((y : A) × (head? ys ≡ some y)
            × (head? (insert before x ys) ≡ (if before y x then some y else some x)))
  unfolding insert
  insert-head x [] = inl (refl, refl)
  insert-head x (y ∷ ys) = inr (y, refl, ground arith)

  -- What holds of every row holds of the first of the sorted rows.
  pub head?-sort-All {κ} :
      (P : A → Type κ) (xs : List A) {m : A} → All P xs → head? (sort before xs) ≡ some m → P m
  unfolding sort
  head?-sort-All P [] h e = cc
  head?-sort-All P (x ∷ xs) {m} h e = elim (insert-head x (sort before xs)) [
    | inl (found, _) ↦ subst P (same found e) h.0
    | inr (y, old, found) ↦ elim (Bool-cases (before y x)) [
      | inl t ↦ subst P (same (rw t at found) e) (head?-sort-All P xs h.1 old)
      | inr t ↦ subst P (same (rw t at found) e) h.0
    ]
  ]

  pub head?-sort-none : (xs : List A) → head? (sort before xs) ≡ none → xs ≡ []
  unfolding sort
  head?-sort-none [] e = refl
  head?-sort-none (x ∷ xs) e = ground (arith, insert-head x (sort before xs))

module _ {ℓ} {A : Type ℓ} (before : A → A → Bool) (o : IsOrder before) where
  Least_weaken :
      (x y : A) (xs : List A) → before y x ≡ false → IsLeast before y xs → IsLeast before x xs
  Least_weaken x y [] h l = tt
  Least_weaken x y (z ∷ xs) h l = (o.trans x y z h l.0, Least_weaken x y xs h l.1)

  -- No row comes before the first of the sorted rows.
  pub head?-sort-IsLeast :
      (xs : List A) {m : A} → head? (sort before xs) ≡ some m → IsLeast before m xs
  unfolding sort
  head?-sort-IsLeast [] e = tt
  head?-sort-IsLeast (x ∷ xs) {m} e = elim (insert-head before x (sort before xs)) [
    | inl (found, alone) ↦
        subst (λ t. IsLeast before t (x ∷ xs)) (same found e)
          (o.irrefl x, rw (head?-sort-none before xs alone) tt)
    | inr (y, old, found) ↦
        let rest = head?-sort-IsLeast xs old in
        elim (Bool-cases (before y x)) [
          | inl t ↦
              subst (λ t. IsLeast before t (x ∷ xs)) (same (rw t at found) e) (o.asymm y x t, rest)
          | inr t ↦
              subst (λ t. IsLeast before t (x ∷ xs)) (same (rw t at found) e)
                (o.irrefl x, Least_weaken x y xs t rest)
        ]
  ]
