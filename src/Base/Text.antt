-- ===== src/Base/Text.antt =====
-- Text. A Go string is modelled by its runes, and `bytes` gives the UTF-8 bytes that `len(s)` and
-- `s[i]` read.
use Prim.Native.Char.{code}
use Prim.Native.Nat.{ℕ, ◌+◌, ◌/◌, ◌%◌}
use Prim.Native.String.{String}
use mathlib.Core.Bool.{Bool, true, false, ◌&&◌, ◌||◌}
use mathlib.Core.List.{List, [], ◌∷◌, ◌++◌}
use mathlib.Core.Logic.{◌↔◌, ◌≢◌, inl, inr}
use mathlib.Core.Path.{◌≡◌, refl, ap₂}
use native.Mathlib.Omega.{arith}
use homesink.Base.Tests.{ltb, leb, ◌==◌, if◌then◌else◌, Bool-cases}
use homesink.Base.Lists.{length}

abbrev pub Str : Type 0
Str = List ℕ

-- The code points of a literal.
abbrev pub codes : String → Str
codes String.[] = []
codes (String.◌∷◌ c s) = code c ∷ codes s

-- Go's == on strings.
unfoldable pub str_eq : Str → Str → Bool
str_eq [] [] = true
str_eq [] (y ∷ ys) = false
str_eq (x ∷ xs) [] = false
str_eq (x ∷ xs) (y ∷ ys) = x == y && str_eq xs ys

pub str_eq_sound : (s t : Str) → str_eq s t ≡ true → s ≡ t
unfolding str_eq
str_eq_sound [] [] h = refl
str_eq_sound [] (y ∷ ys) h = ground arith
str_eq_sound (x ∷ xs) [] h = ground arith
str_eq_sound (x ∷ xs) (y ∷ ys) h = ap₂ ◌∷◌ (ground arith) (str_eq_sound xs ys (ground arith))

pub str_eq_refl : (s : Str) → str_eq s s ≡ true
unfolding str_eq
str_eq_refl [] = refl
str_eq_refl (x ∷ xs) = ground (arith, str_eq_refl xs)

pub str_eq_iff : (s t : Str) → (str_eq s t ≡ true) ↔ (s ≡ t)
str_eq_iff s t = (str_eq_sound s t, λ e. rw e (str_eq_refl t))

pub str_eq_ne : (s t : Str) → s ≢ t → str_eq s t ≡ false
str_eq_ne s t n = elim (Bool-cases (str_eq s t)) [
  | inl e ↦ absurd (n (str_eq_sound s t e))
  | inr e ↦ e
]

-- The UTF-8 encoding of one rune.
unfoldable pub rune_bytes : ℕ → List ℕ
rune_bytes r =
    if ltb r 0x80
    then r ∷ []
    else if ltb r 0x800
    then (0xC0 + r / 64) ∷ (0x80 + r % 64) ∷ []
    else if ltb r 0x10000
    then (0xE0 + r / 4096) ∷ (0x80 + r / 64 % 64) ∷ (0x80 + r % 64) ∷ []
    else (0xF0 + r / 262144) ∷ (0x80 + r / 4096 % 64) ∷ (0x80 + r / 64 % 64) ∷ (0x80 + r % 64) ∷ []

unfoldable pub bytes : Str → List ℕ
unfolding rune_bytes
bytes [] = []
bytes (r ∷ s) = rune_bytes r ++ bytes s

-- len(s).
unfoldable pub len : Str → ℕ
unfolding bytes
len s = length (bytes s)

-- strings.ToLower on ASCII letters.
unfoldable pub lower_rune : ℕ → ℕ
lower_rune r = if leb b'A' r && leb r b'Z' then r + 32 else r

unfoldable pub to_lower : Str → Str
unfolding lower_rune
to_lower [] = []
to_lower (r ∷ s) = lower_rune r ∷ to_lower s

-- unicode.IsSpace.
unfoldable pub is_space : ℕ → Bool
is_space r =
    (leb 0x09 r && leb r 0x0D)
    || (r == 0x20
        || (r == 0x85
            || (r == 0xA0
                || (r == 0x1680
                    || ((leb 0x2000 r && leb r 0x200A)
                        || (r == 0x2028
                            || (r == 0x2029 || (r == 0x202F || (r == 0x205F || r == 0x3000)))))))))

-- strings.TrimLeftFunc, TrimRightFunc and TrimFunc.
unfoldable pub trim_left : (ℕ → Bool) → Str → Str
trim_left p [] = []
trim_left p (r ∷ s) = let rest = trim_left p s in if p r then rest else r ∷ s

unfoldable pub trim_right_step : (ℕ → Bool) → ℕ → Str → Str
trim_right_step p r [] = if p r then [] else r ∷ []
trim_right_step p r (t ∷ ts) = r ∷ t ∷ ts

unfoldable pub trim_right : (ℕ → Bool) → Str → Str
unfolding trim_right_step
trim_right p [] = []
trim_right p (r ∷ s) = trim_right_step p r (trim_right p s)

unfoldable pub trim : (ℕ → Bool) → Str → Str
unfolding trim_left trim_right
trim p s = trim_right p (trim_left p s)

-- strings.TrimSpace.
unfoldable pub trim_space : Str → Str
unfolding trim is_space
trim_space s = trim is_space s
