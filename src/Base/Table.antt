-- ===== src/Base/Table.antt =====
-- A SQL table as its rows in insertion order: the queries and statements that the store sends.
use Prim.Native.Nat.{ℕ, suc, ◌≤◌}
use mathlib.Core.Bool.{Bool, true, false}
use mathlib.Core.List.{List, [], ◌∷◌, ◌++◌, map}
use mathlib.Core.Logic.{inl, inr}
use mathlib.Core.Option
use mathlib.Core.Option.{Option, none, some}
use mathlib.Core.Path.{◌≡◌, refl, subst}
use native.Mathlib.Omega.{arith}
use homesink.Base.Tests.{if◌then◌else◌, Bool-cases}
use homesink.Base.Lists.{All, keep, head?}

some_inj {ℓ} : {A : Type ℓ} {x y : A} → some x ≡ some y → x ≡ y
some_inj e = cc

module _ {ℓ} {A : Type ℓ} where
  -- SELECT ... WHERE p, the first row.
  unfoldable pub select : (A → Bool) → List A → Option A
  select p [] = none
  select p (x ∷ xs) = if p x then some x else select p xs

  -- UPDATE ... SET f WHERE p.
  unfoldable pub update : (A → Bool) → (A → A) → List A → List A
  update p f [] = []
  update p f (x ∷ xs) = (if p x then f x else x) ∷ update p f xs

  -- DELETE ... WHERE p.
  unfoldable pub delete : (A → Bool) → List A → List A
  delete p [] = []
  delete p (x ∷ xs) = if p x then delete p xs else x ∷ delete p xs

  -- The number of rows that a statement with WHERE p affects.
  unfoldable pub affected : (A → Bool) → List A → ℕ
  affected p [] = 0
  affected p (x ∷ xs) = if p x then suc (affected p xs) else affected p xs

  pub select_sound : (p : A → Bool) (xs : List A) {a : A} → select p xs ≡ some a → p a ≡ true
  unfolding select
  select_sound p [] h = ground arith
  select_sound p (x ∷ xs) {a} h = ground (arith, select_sound p xs {a = a})

  -- An update that keeps its own condition shows in the selected row.
  pub select-update :
      (p : A → Bool) (f : A → A) (xs : List A)
      → ((x : A) → p x ≡ true → p (f x) ≡ true)
      → select p (update p f xs) ≡ Option.map f (select p xs)
  unfolding select update
  select-update p f [] keeps = refl
  select-update p f (x ∷ xs) keeps = ground (arith, keeps x, select-update p f xs keeps)

  -- Rows that the update does not meet, before or after it, are read as before.
  pub select-update_other :
      (p q : A → Bool) (f : A → A) (xs : List A)
      → ((x : A) → p x ≡ true → q x ≡ false)
      → ((x : A) → p x ≡ true → q (f x) ≡ false)
      → select q (update p f xs) ≡ select q xs
  unfolding select update
  select-update_other p q f [] before after = refl
  select-update_other p q f (x ∷ xs) before after =
      ground (arith, before x, after x, select-update_other p q f xs before after)

  pub select-append :
      (p : A → Bool) (xs : List A) (a : A)
      → select p xs ≡ none
      → select p (xs ++ a ∷ []) ≡ (if p a then some a else none)
  unfolding select
  select-append p [] a h = refl
  select-append p (x ∷ xs) a h = ground (arith, select-append p xs a)

  pub select-append_other :
      (p : A → Bool) (xs : List A) (a : A) → p a ≡ false → select p (xs ++ a ∷ []) ≡ select p xs
  unfolding select
  select-append_other p [] a h = rw h
  select-append_other p (x ∷ xs) a h = ground (arith, select-append_other p xs a h)

  pub select-append_old :
      (p : A → Bool) (xs : List A) (a : A) {b : A}
      → select p xs ≡ some b
      → select p (xs ++ a ∷ []) ≡ some b
  unfolding select
  select-append_old p [] a h = ground arith
  select-append_old p (x ∷ xs) a {b} h = ground (arith, select-append_old p xs a {b = b})

  pub select-delete_self : (p : A → Bool) (xs : List A) → select p (delete p xs) ≡ none
  unfolding select delete
  select-delete_self p [] = refl
  select-delete_self p (x ∷ xs) = ground (arith, select-delete_self p xs)

  -- A row that the deletion does not meet is read as before.
  pub select-delete_other :
      (p q : A → Bool) (xs : List A)
      → ((x : A) → p x ≡ true → q x ≡ false)
      → select q (delete p xs) ≡ select q xs
  unfolding select delete
  select-delete_other p q [] apart = refl
  select-delete_other p q (x ∷ xs) apart = ground (arith, apart x, select-delete_other p q xs apart)

  pub affected-zero : (p : A → Bool) (xs : List A) → select p xs ≡ none → affected p xs ≡ 0
  unfolding select affected
  affected-zero p [] h = refl
  affected-zero p (x ∷ xs) h = ground (arith, affected-zero p xs)

  pub affected-pos : (p : A → Bool) (xs : List A) {a : A} → select p xs ≡ some a → 1 ≤ affected p xs
  unfolding select affected
  affected-pos p [] h = ground arith
  affected-pos p (x ∷ xs) {a} h = ground (arith, affected-pos p xs {a = a})

  -- An update that meets every row of `q`, and makes `q` false of it, leaves no row that meets `q`.
  pub select-update_cleared :
      (p q : A → Bool) (f : A → A) (xs : List A)
      → ((x : A) → q x ≡ true → p x ≡ true)
      → ((x : A) → p x ≡ true → q (f x) ≡ false)
      → select q (update p f xs) ≡ none
  unfolding select update
  select-update_cleared p q f [] covers clears = refl
  select-update_cleared p q f (x ∷ xs) covers clears =
      ground (arith, covers x, clears x, select-update_cleared p q f xs covers clears)

  -- Where no row meets `q`, and no updated row comes to meet it, none does afterwards.
  pub select-update-none :
      (p q : A → Bool) (f : A → A) (xs : List A)
      → ((x : A) → p x ≡ true → q x ≡ false → q (f x) ≡ false)
      → select q xs ≡ none
      → select q (update p f xs) ≡ none
  unfolding select update
  select-update-none p q f [] stays h = refl
  select-update-none p q f (x ∷ xs) stays h =
      ground (arith, stays x, select-update-none p q f xs stays)

  pub All_of_select-none :
      (p : A → Bool) (xs : List A) → select p xs ≡ none → All (λ x. p x ≡ false) xs
  unfolding select
  All_of_select-none p [] h = tt
  All_of_select-none p (x ∷ xs) h = elim (Bool-cases (p x)) [
    | inl t ↦ cc (rw t at h)
    | inr t ↦ (t, All_of_select-none p xs (rw t at h))
  ]

  pub select-All {κ} :
      (P : A → Type κ) (p : A → Bool) (xs : List A) {a : A} → All P xs → select p xs ≡ some a → P a
  unfolding select
  select-All P p [] h e = cc
  select-All P p (x ∷ xs) {a} h e = elim (Bool-cases (p x)) [
    | inl t ↦ subst P (some_inj (rw t at e)) h.0
    | inr t ↦ select-All P p xs h.1 (rw t at e)
  ]

  pub select-delete-none :
      (p q : A → Bool) (xs : List A) → select q xs ≡ none → select q (delete p xs) ≡ none
  unfolding select delete
  select-delete-none p q [] h = refl
  select-delete-none p q (x ∷ xs) h = ground (arith, select-delete-none p q xs)

  pub keep-update_self :
      (p : A → Bool) (f : A → A) (xs : List A)
      → ((x : A) → p x ≡ true → p (f x) ≡ true)
      → keep p (update p f xs) ≡ map f (keep p xs)
  unfolding update
  keep-update_self p f [] keeps = refl
  keep-update_self p f (x ∷ xs) keeps = ground (arith, keeps x, keep-update_self p f xs keeps)

  pub keep-update_other :
      (p q : A → Bool) (f : A → A) (xs : List A)
      → ((x : A) → p x ≡ true → q x ≡ false)
      → ((x : A) → p x ≡ true → q (f x) ≡ false)
      → keep q (update p f xs) ≡ keep q xs
  unfolding update
  keep-update_other p q f [] before after = refl
  keep-update_other p q f (x ∷ xs) before after =
      ground (arith, before x, after x, keep-update_other p q f xs before after)

  -- The rows of `q` after a deletion are those of `q` to which the deletion applies as well.
  pub keep-delete : (p q : A → Bool) (xs : List A) → keep q (delete p xs) ≡ delete p (keep q xs)
  unfolding delete
  keep-delete p q [] = refl
  keep-delete p q (x ∷ xs) = ground (arith, keep-delete p q xs)

  pub delete-none : (p : A → Bool) (xs : List A) → select p xs ≡ none → delete p xs ≡ xs
  unfolding select delete
  delete-none p [] h = refl
  delete-none p (x ∷ xs) h = ground (arith, delete-none p xs)

  pub delete_other :
      (p q : A → Bool) (xs : List A)
      → ((x : A) → q x ≡ true → p x ≡ false)
      → delete p (keep q xs) ≡ keep q xs
  unfolding delete
  delete_other p q [] apart = refl
  delete_other p q (x ∷ xs) apart = ground (arith, apart x, delete_other p q xs apart)

  pub select-keep : (p : A → Bool) (xs : List A) → select p xs ≡ head? (keep p xs)
  unfolding select
  select-keep p [] = refl
  select-keep p (x ∷ xs) = ground (arith, select-keep p xs)

  pub All-delete {κ} :
      (P : A → Type κ) (p : A → Bool) (xs : List A) → All P xs → All P (delete p xs)
  unfolding delete
  All-delete P p [] h = tt
  All-delete P p (x ∷ xs) h = elim (Bool-cases (p x)) [
    | inl t ↦ rw t (All-delete P p xs h.1)
    | inr t ↦ rw t (h.0, All-delete P p xs h.1)
  ]

  pub All-append {κ} :
      (P : A → Type κ) (xs : List A) (x : A) → All P xs → P x → All P (xs ++ x ∷ [])
  All-append P [] x h px = (px, tt)
  All-append P (y ∷ ys) x h px = (h.0, All-append P ys x h.1 px)
