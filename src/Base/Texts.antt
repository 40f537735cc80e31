-- ===== src/Base/Texts.antt =====
-- Runes of a text that pass a test: under concatenation, prefixes, keep and trim.
use Prim.Native.Nat.{ℕ, zero, suc, ◌+◌, ◌≤◌}
use mathlib.Core.Bool.{Bool, true, false}
use mathlib.Core.List.{List, [], ◌∷◌, ◌++◌, append_assoc}
use mathlib.Core.Logic.{inl, inr}
use mathlib.Core.Path.{◌≡◌, refl, sym, ap, ◌∙◌}
use native.Mathlib.Omega.{arith}
use homesink.Base.Tests.{Bool-cases}
use homesink.Base.Lists.{length, length-append, all, keep, take, drop}
use homesink.Base.Text.{Str, rune_bytes, bytes, len, trim_left, trim_right_step, trim_right, trim}

module _ {ℓ} {A : Type ℓ} where
  -- What a cut of the text keeps.
  pub record Prefix (t s : List A) : Type ℓ where
    pub rest : List A
    pub whole : t ++ rest ≡ s

  pub take-drop : (n : ℕ) (s : List A) → take n s ++ drop n s ≡ s
  take-drop zero s = refl
  take-drop (suc n) [] = refl
  take-drop (suc n) (x ∷ s) = ap (◌∷◌ x) (take-drop n s)

  pub length-drop-le : (n : ℕ) (s : List A) → length (drop n s) ≤ length s
  length-drop-le zero s = omega arith
  length-drop-le (suc n) [] = omega arith
  length-drop-le (suc n) (x ∷ s) = omega (arith, length-drop-le n s)

  pub all-left : (p : A → Bool) (s t : List A) → all p (s ++ t) ≡ true → all p s ≡ true
  all-left p [] t h = refl
  all-left p (x ∷ s) t h = ground (arith, all-left p s t)

  pub all-right : (p : A → Bool) (s t : List A) → all p (s ++ t) ≡ true → all p t ≡ true
  all-right p [] t h = h
  all-right p (x ∷ s) t h = ground (arith, all-right p s t)

  pub all-Prefix : (p : A → Bool) (t s : List A) → Prefix t s → all p s ≡ true → all p t ≡ true
  all-Prefix p t s h a = all-left p t h.rest (rw h.whole a)

  pub all-keep : (p : A → Bool) (s : List A) → all p (keep p s) ≡ true
  all-keep p [] = refl
  all-keep p (x ∷ s) = ground (arith, all-keep p s)

  pub all-imp :
      (p q : A → Bool) (s : List A)
      → ((x : A) → p x ≡ true → q x ≡ true)
      → all p s ≡ true
      → all q s ≡ true
  all-imp p q [] imp h = refl
  all-imp p q (x ∷ s) imp h = ground (arith, imp x, all-imp p q s imp)

bytes-append : (s t : Str) → bytes (s ++ t) ≡ bytes s ++ bytes t
unfolding bytes
bytes-append [] t = refl
bytes-append (r ∷ s) t =
    ap (λ (bs : List ℕ). rune_bytes r ++ bs) (bytes-append s t)
    ∙ sym (append_assoc (rune_bytes r) (bytes s) (bytes t))

pub len-append : (s t : Str) → len (s ++ t) ≡ len s + len t
unfolding len
len-append s t = ap length (bytes-append s t) ∙ length-append (bytes s) (bytes t)

pub len-Prefix : (t s : Str) → Prefix t s → len t ≤ len s
len-Prefix t s h = rw (sym h.whole) (omega (arith, len-append t h.rest))

pub all-trim_left : (p q : ℕ → Bool) (s : Str) → all q s ≡ true → all q (trim_left p s) ≡ true
unfolding trim_left
all-trim_left p q [] h = refl
all-trim_left p q (r ∷ s) h = ground (arith, all-trim_left p q s)

all-trim_right_step :
    (p q : ℕ → Bool) (r : ℕ) (s : Str)
    → q r ≡ true
    → all q s ≡ true
    → all q (trim_right_step p r s) ≡ true
unfolding trim_right_step
all-trim_right_step p q r [] h k = ground arith
all-trim_right_step p q r (t ∷ ts) h k = ground arith

pub all-trim_right : (p q : ℕ → Bool) (s : Str) → all q s ≡ true → all q (trim_right p s) ≡ true
unfolding trim_right
all-trim_right p q [] h = refl
all-trim_right p q (r ∷ s) h = elim (Bool-cases (q r)) [
  | inl t ↦ all-trim_right_step p q r (trim_right p s) t (all-trim_right p q s (rw t at h))
  | inr t ↦ cc (rw t at h)
]

pub all-trim : (p q : ℕ → Bool) (s : Str) → all q s ≡ true → all q (trim p s) ≡ true
unfolding trim
all-trim p q s h = all-trim_right p q (trim_left p s) (all-trim_left p q s h)

-- Whether the first rune, or the last one, passes the test.
abbrev pub starts : (ℕ → Bool) → Str → Bool
starts p [] = false
starts p (r ∷ s) = p r

abbrev pub ends : (ℕ → Bool) → Str → Bool
ends p [] = false
ends p (r ∷ []) = p r
ends p (r ∷ t ∷ s) = ends p (t ∷ s)

starts-trim_left : (p : ℕ → Bool) (s : Str) → starts p (trim_left p s) ≡ false
unfolding trim_left
starts-trim_left p [] = refl
starts-trim_left p (r ∷ s) = ground (arith, starts-trim_left p s)

starts-trim_right_step :
    (p : ℕ → Bool) (r : ℕ) (s : Str) → p r ≡ false → starts p (trim_right_step p r s) ≡ false
unfolding trim_right_step
starts-trim_right_step p r [] h = rw h h
starts-trim_right_step p r (t ∷ ts) h = h

starts-trim_right :
    (p : ℕ → Bool) (s : Str) → starts p s ≡ false → starts p (trim_right p s) ≡ false
unfolding trim_right
starts-trim_right p [] h = refl
starts-trim_right p (r ∷ s) h = starts-trim_right_step p r (trim_right p s) h

ends-trim_right_step :
    (p : ℕ → Bool) (r : ℕ) (s : Str) → ends p s ≡ false → ends p (trim_right_step p r s) ≡ false
unfolding trim_right_step
ends-trim_right_step p r [] h = elim (Bool-cases (p r)) [ inl t ↦ rw t refl | inr t ↦ rw t t ]
ends-trim_right_step p r (t ∷ ts) h = h

ends-trim_right : (p : ℕ → Bool) (s : Str) → ends p (trim_right p s) ≡ false
unfolding trim_right
ends-trim_right p [] = refl
ends-trim_right p (r ∷ s) = ends-trim_right_step p r (trim_right p s) (ends-trim_right p s)

pub starts-trim : (p : ℕ → Bool) (s : Str) → starts p (trim p s) ≡ false
unfolding trim
starts-trim p s = starts-trim_right p (trim_left p s) (starts-trim_left p s)

pub ends-trim : (p : ℕ → Bool) (s : Str) → ends p (trim p s) ≡ false
unfolding trim
ends-trim p s = ends-trim_right p (trim_left p s)
