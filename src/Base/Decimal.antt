-- ===== src/Base/Decimal.antt =====
-- Printing numbers in decimal: the verbs %d and %0*d of fmt.
use Prim.Native.Nat.{ℕ, zero, suc, ◌+◌, ◌-◌, ◌/◌, ◌%◌, ◌^◌, ◌≤◌, ◌<◌}
use mathlib.Core.Bool.{Bool, true, ◌&&◌}
use mathlib.Core.List.{List, [], ◌∷◌, ◌++◌}
use mathlib.Core.Path.{◌≡◌, refl, ap}
use mathlib.Core.Logic.{inl, inr}
use native.Mathlib.Omega.{arith}
use native.Mathlib.Nat.{pow-suc}
use homesink.Base.Tests.{ltb, leb, if◌then◌else◌, Bool-cases}
use homesink.Base.Lists.{length, length-append, all}
use homesink.Base.Text.{Str, bytes}

-- The decimal digits of `n`, on fuel: `n` rounds are always enough.
unfoldable pub digits : ℕ → ℕ → Str
digits zero n = []
digits (suc f) n =
    let more = digits f (n / 10) ++ (48 + n % 10) ∷ [] in if ltb n 10 then (48 + n) ∷ [] else more

unfoldable pub decimal : ℕ → Str
unfolding digits
decimal n = digits (suc n) n

abbrev pub replicate {ℓ} : {A : Type ℓ} → ℕ → A → List A
replicate zero a = []
replicate (suc n) a = a ∷ replicate n a

-- fmt's %0*d of a number that is not negative.
unfoldable pub pad_decimal : ℕ → ℕ → Str
unfolding decimal
pad_decimal width n = replicate (width - length (decimal n)) 48 ++ decimal n

abbrev pub is_digit : ℕ → Bool
is_digit r = leb 48 r && leb r 57

pub all-append {ℓ} :
    {A : Type ℓ} (p : A → Bool) (xs ys : List A)
    → all p xs ≡ true
    → all p ys ≡ true
    → all p (xs ++ ys) ≡ true
all-append p [] ys h k = k
all-append p (x ∷ xs) ys h k = ground (arith, all-append p xs ys)

all-replicate : (n : ℕ) → all is_digit (replicate n 48) ≡ true
all-replicate zero = refl
all-replicate (suc n) = all-replicate n

length-replicate : (n : ℕ) → length {A = ℕ} (replicate n 48) ≡ n
length-replicate zero = refl
length-replicate (suc n) = ap suc (length-replicate n)

digits-all : (f n : ℕ) → all is_digit (digits f n) ≡ true
unfolding digits
digits-all zero n = refl
digits-all (suc f) n = elim (Bool-cases (ltb n 10)) [
  | inl h ↦ rw h (ground arith)
  | inr h ↦ rw h (all-append is_digit (digits f (n / 10)) _ (digits-all f (n / 10)) (ground arith))
]

digits-length : (f n k : ℕ) → n < 10 ^ suc k → length (digits f n) ≤ suc k
unfolding digits
digits-length zero n k h = omega arith
digits-length (suc f) n zero h = ground (arith, pow-suc 10 zero)
digits-length (suc f) n (suc k) h = elim (Bool-cases (ltb n 10)) [
  | inl small ↦ rw small (omega arith)
  | inr large ↦
      let fits : n / 10 < 10 ^ suc k = omega (arith, pow-suc 10 (suc k)) in
      rw large (
        omega (
          arith,
          length-append (digits f (n / 10)) ((48 + n % 10) ∷ []),
          digits-length f (n / 10) k fits,
        ))
]

-- The verb %0*d gives digits only, and exactly `width` of them where the number fits.
pub pad_decimal-all : (width n : ℕ) → all is_digit (pad_decimal width n) ≡ true
unfolding pad_decimal
pad_decimal-all width n =
    all-append is_digit (replicate (width - length (decimal n)) 48) (decimal n)
      (all-replicate (width - length (decimal n))) (digits-all (suc n) n)

pub length-pad_decimal : (k n : ℕ) → n < 10 ^ suc k → length (pad_decimal (suc k) n) ≡ suc k
unfolding pad_decimal
length-pad_decimal k n h = omega (
  arith,
  length-append (replicate (suc k - length (decimal n)) 48) (decimal n),
  length-replicate (suc k - length (decimal n)),
  digits-length (suc n) n k h,
)

-- The bytes of a text of digits are its runes.
pub bytes_digits : (s : Str) → all is_digit s ≡ true → bytes s ≡ s
unfolding bytes
bytes_digits [] h = refl
bytes_digits (r ∷ s) h = ground (arith, bytes_digits s)
