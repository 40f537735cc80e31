-- ===== src/Library/Paths/Names.antt =====
-- The parts of a path that resolve builds are components of a clean path.
use homesink.Base.{
  ℕ, suc, ◌-◌, ◌/◌, ◌≡◌, ◌≢◌, refl, subst, inl, inr, Bool, true, false, not, ◌||◌, [], ◌∷◌, ◌++◌,
  Str, codes, ltb, ◌==◌, Bool-cases, all, arith, length,
}
use homesink.Base.Int.{ℤ, pos, negsuc}
use homesink.Base.Texts.{all-imp, starts}
use homesink.Base.Decimal.{decimal, digits, replicate, is_digit, pad_decimal, pad_decimal-all}
use homesink.Library.Sanitize.{contains_rune, is_forbidden, is_dot_or_space}
use homesink.Library.Sanitize.Safe.{is_safe, Named}
use homesink.Library.Sanitize.Filename.{Component}
use homesink.Library.Paths.{not_relative, pad_int, join_rel}
use homesink.Library.Paths.Inside.{CleanName}

-- Runes that are safe are no separator.
safe_rune : (r : ℕ) → is_safe r ≡ true → not (r == 47) ≡ true
unfolding is_forbidden contains_rune
safe_rune r h = ground arith

no_slash : (s : Str) → all is_safe s ≡ true → all (λ r. not (r == 47)) s ≡ true
no_slash s = all-imp is_safe (λ r. not (r == 47)) s safe_rune

relative_rune : (r : ℕ) → is_safe r ≡ true → (r == 47) || (r == 92) ≡ false
unfolding is_forbidden contains_rune
relative_rune r h = ground arith

head_safe : (r : ℕ) (s : Str) → all is_safe (r ∷ s) ≡ true → is_safe r ≡ true
unfolding is_forbidden
head_safe r s h = ground arith

not_relative-append : (s t : Str) → s ≢ [] → all is_safe s ≡ true → not_relative (s ++ t) ≡ false
not_relative-append [] t n h = absurd (n refl)
not_relative-append (r ∷ s) t n h = relative_rune r (head_safe r s h)

pub relative :
    (album : Str) (year : ℤ) (month : ℕ) (filename : Str)
    → album ≢ []
    → all is_safe album ≡ true
    → not_relative (join_rel album year month filename) ≡ false
unfolding join_rel
relative album year month filename n h = not_relative-append album _ n h

-- Digits and the minus sign.
abbrev is_plain : ℕ → Bool
is_plain r = is_digit r || (r == 45)

plain_digit : (r : ℕ) → is_digit r ≡ true → is_plain r ≡ true
plain_digit r h = ground arith

plain_rune : (r : ℕ) → is_plain r ≡ true → not (r == 47) ≡ true
plain_rune r h = ground arith

pub plain-CleanName : (s : Str) → s ≢ [] → all is_plain s ≡ true → CleanName s
plain-CleanName s n h = record {
  some_text = n;
  not_self = λ e. cc (subst (λ (x : Str). all is_plain x ≡ true) e h);
  not_parent = λ e. cc (subst (λ (x : Str). all is_plain x ≡ true) e h);
  one = all-imp is_plain (λ r. not (r == 47)) s plain_rune h;
}

append-some : (s t : Str) → t ≢ [] → s ++ t ≢ []
append-some [] t n e = n e
append-some (r ∷ s) t n e = cc e

digits-some : (f n : ℕ) → digits (suc f) n ≢ []
unfolding digits
digits-some f n = elim (Bool-cases (ltb n 10)) [
  | inl t ↦ rw t (λ e. cc e)
  | inr t ↦ rw t (append-some (digits f (n / 10)) _ (λ e. cc e))
]

pub pad_decimal-some : (width n : ℕ) → pad_decimal width n ≢ []
unfolding pad_decimal decimal
pad_decimal-some width n =
    append-some (replicate (width - length (decimal n)) 48) (digits (suc n) n) (digits-some n n)

pub pad_decimal-plain : (width n : ℕ) → all is_plain (pad_decimal width n) ≡ true
pad_decimal-plain width n =
    all-imp is_digit is_plain (pad_decimal width n) plain_digit (pad_decimal-all width n)

pub pad_int-CleanName : (width : ℕ) (y : ℤ) → CleanName (pad_int width y)
unfolding pad_int
pad_int-CleanName width (pos n) =
    plain-CleanName (pad_decimal width n) (pad_decimal-some width n) (pad_decimal-plain width n)
pad_int-CleanName width (negsuc n) =
    plain-CleanName (45 ∷ pad_decimal (width - 1) (suc n)) (λ e. cc e)
      (pad_decimal-plain (width - 1) (suc n))

pub Named-CleanName : (s : Str) → Named s → CleanName s
Named-CleanName s n = record {
  some_text = n.some_text;
  not_self = λ e. cc (subst (λ (x : Str). starts is_dot_or_space x ≡ false) e n.first);
  not_parent = λ e. cc (subst (λ (x : Str). starts is_dot_or_space x ≡ false) e n.first);
  one = no_slash s n.runes;
}

pub Component-CleanName : (s : Str) → Component s → s ≢ [] → s ≢ codes "." → CleanName s
Component-CleanName s c n d = record {
  some_text = n;
  not_self = d;
  not_parent = c.not_parent;
  one = no_slash s c.runes;
}
