-- ===== src/Library/Sanitize/Extension.antt =====
-- splitExt: the two parts of a name.
use mathlib.Core.List.{append-nil}
use homesink.Base.{
  ℕ, ◌≡◌, ◌≢◌, refl, sym, ap, subst, ◌∙◌, inl, inr, Bool, true, false, not, [], ◌∷◌, ◌++◌, Option,
  none, some, Str, codes, all, ◌==◌, if◌then◌else◌, Bool-cases, Option-cases, arith,
}
use homesink.Base.Texts.{Prefix, starts}
use homesink.Library.Sanitize.{last_dot, or_dot, at_dot, split_ext}

abbrev pub is_dot : ℕ → Bool
is_dot r = r == 46

abbrev not_dot : ℕ → Bool
not_dot r = not (r == 46)

-- An extension is empty, or a dot and what has no dot.
abbrev pub is_ext : Str → Bool
is_ext [] = true
is_ext (r ∷ b) = if r == 46 then all not_dot b else false

-- The two parts of a name.
pub record Parts (whole : Str) (parts : Str × Str) : Type 0 where
  pub joined : parts.0 ++ parts.1 ≡ whole
  pub ext : is_ext parts.1 ≡ true
  pub stem : starts is_dot whole ≡ false → starts is_dot parts.0 ≡ false

-- What last_dot finds.
abbrev Found : Str → Option (Str × Str) → Type 0
Found s none = Unit
Found s (some (a, b)) = (a ++ 46 ∷ b ≡ s) × (all not_dot b ≡ true)

or_dot-none :
    (r : ℕ) (s : Str) → or_dot r s none ≡ none → all not_dot s ≡ true → all not_dot (r ∷ s) ≡ true
or_dot-none r s h a = ground arith

or_dot-some : (r : ℕ) (s : Str) (p : Str × Str) → or_dot r s (some p) ≢ none
or_dot-some r s (a, b) h = cc h

-- Where it finds nothing there is no dot.
last_dot-none : (s : Str) → last_dot s ≡ none → all not_dot s ≡ true
unfolding last_dot
last_dot-none [] h = refl
last_dot-none (r ∷ s) h = elim (Option-cases (last_dot s)) [
  | inl e ↦ or_dot-none r s (rw e at h) (last_dot-none s e)
  | inr (p, e) ↦ absurd (or_dot-some r s p (rw e at h))
]

or_dot-Found :
    (r : ℕ) (s : Str) (o : Option (Str × Str))
    → Found s o
    → (o ≡ none → all not_dot s ≡ true)
    → Found (r ∷ s) (or_dot r s o)
or_dot-Found r s (some (a, b)) f n = (ap (◌∷◌ r) f.0, f.1)
or_dot-Found r s none f n = elim (Bool-cases (r == 46)) [
  | inl t ↦ rw t (ground arith, n refl)
  | inr t ↦ rw t tt
]

last_dot-Found : (s : Str) → Found s (last_dot s)
unfolding last_dot
last_dot-Found [] = tt
last_dot-Found (r ∷ s) = or_dot-Found r s (last_dot s) (last_dot-Found s) (last_dot-none s)

at_dot-Parts : (s : Str) (o : Option (Str × Str)) → Found s o → Parts s (at_dot s o)
at_dot-Parts s none f = record { joined = append-nil s; ext = refl; stem = λ h. h }
at_dot-Parts s (some ([], b)) f = record { joined = append-nil s; ext = refl; stem = λ h. h }
at_dot-Parts s (some (r ∷ a, b)) f = record {
  joined = f.0;
  ext = f.1;
  stem = λ h. subst (λ (x : Str). starts is_dot x ≡ false) (sym f.0) h;
}

pub split_ext-Parts : (s : Str) → Parts s (split_ext s)
unfolding split_ext
split_ext-Parts s = at_dot-Parts s (last_dot s) (last_dot-Found s)

-- What stands before the cut of an extension has no second dot.
ext-not_parent : (s : Str) → is_ext s ≡ true → (rest : Str) → 46 ∷ 46 ∷ rest ≢ s
ext-not_parent s h rest e = cc (subst (λ (x : Str). is_ext x ≡ true) (sym e) h)

pub ext-Prefix : (t s : Str) → Prefix t s → is_ext s ≡ true → t ≢ codes ".."
ext-Prefix t s p h e = ext-not_parent s h p.rest (ap (λ (x : Str). x ++ p.rest) (sym e) ∙ p.whole)

pub stem-ext : (a b : Str) → starts is_dot a ≡ false → is_ext b ≡ true → a ++ b ≢ codes ".."
stem-ext [] b s h e = ext-not_parent b h [] (sym e)
stem-ext (r ∷ a) b s h e = cc (subst (λ (x : Str). starts is_dot x ≡ false) e s)
