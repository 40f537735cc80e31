-- ===== src/Base/Single.antt =====
-- The rows of a sorted list that pass a test, where at most one does.
use mathlib.Core.Bool.{Bool, true, false}
use mathlib.Core.List.{List, [], ◌∷◌, ◌++◌}
use mathlib.Core.Logic.{inl, inr}
use mathlib.Core.Path.{◌≡◌, refl, sym, ap, ◌∙◌}
use native.Mathlib.Omega.{arith}
use homesink.Base.Tests.{Bool-cases}
use homesink.Base.Lists.{keep}
use homesink.Base.Sort.{insert, sort}

abbrev pub AtMostOne {ℓ} : {A : Type ℓ} → List A → Type 0
AtMostOne [] = Unit
AtMostOne (x ∷ []) = Unit
AtMostOne (x ∷ y ∷ ys) = ⊥

module _ {ℓ} {A : Type ℓ} (before : A → A → Bool) (p : A → Bool) where
  keep-insert_out : (x : A) (ys : List A) → p x ≡ false → keep p (insert before x ys) ≡ keep p ys
  unfolding insert
  keep-insert_out x [] h = rw h refl
  keep-insert_out x (y ∷ ys) h = elim (Bool-cases (before y x)) [
    | inl t ↦ rw t (ground (arith, keep-insert_out x ys h))
    | inr t ↦ rw (t, h) refl
  ]

  keep-insert_in :
      (x : A) (ys : List A) → p x ≡ true → keep p ys ≡ [] → keep p (insert before x ys) ≡ x ∷ []
  unfolding insert
  keep-insert_in x [] h e = rw h refl
  keep-insert_in x (y ∷ ys) h e = elim (Bool-cases (p y)) [
    | inl mine ↦ cc (rw mine at e)
    | inr other ↦ elim (Bool-cases (before y x)) [
      | inl t ↦ rw (t, other) (keep-insert_in x ys h (rw other at e))
      | inr t ↦ rw (t, h, other) (ap (◌∷◌ x) (rw other at e))
    ]
  ]

  alone : (x : A) (xs : List A) → AtMostOne (x ∷ xs) → xs ≡ []
  alone x [] h = refl
  alone x (y ∷ ys) h = absurd h

  pub keep-sort : (xs : List A) → AtMostOne (keep p xs) → keep p (sort before xs) ≡ keep p xs
  unfolding sort
  keep-sort [] h = refl
  keep-sort (x ∷ xs) h = elim (Bool-cases (p x)) [
    | inl mine ↦
        let none_left : keep p xs ≡ [] = alone x (keep p xs) (rw mine at h) in
        let rest = keep-sort xs (rw none_left tt) in
        rw mine
          (keep-insert_in x (sort before xs) mine (rest ∙ none_left) ∙ ap (◌∷◌ x) (sym none_left))
    | inr other ↦ rw other (keep-insert_out x (sort before xs) other ∙ keep-sort xs (rw other at h))
  ]

pub keep-append {ℓ} :
    {A : Type ℓ} (p : A → Bool) (xs ys : List A) → keep p (xs ++ ys) ≡ keep p xs ++ keep p ys
keep-append p [] ys = refl
keep-append p (x ∷ xs) ys = ground (arith, keep-append p xs ys)

pub append_nil {ℓ} : {A : Type ℓ} (xs : List A) → xs ++ [] ≡ xs
append_nil [] = refl
append_nil (x ∷ xs) = ap (◌∷◌ x) (append_nil xs)
