-- ===== src/Auth/Token/Format.antt =====
-- The shapes of pairing codes and device tokens.
use homesink.Base.{
  ℕ, ◌+◌, ◌*◌, ◌/◌, ◌%◌, ◌≤◌, ◌<◌, ◌≡◌, inl, inr, ◌⊎◌, leb→le, true, List, [], ◌∷◌, Option, none,
  some, arith, leb, len, Bool-cases,
}
use homesink.Base.Decimal.{pad_decimal, pad_decimal-all, length-pad_decimal, bytes_digits}
use homesink.Auth.Token.{
  Drawn, drawn, unreadable, starved, code_digits, space, limit, format_code, generate_pairing_code,
  valid_code_format, base64_char, is_base64_char,
}

-- What a draw prints is a well-formed code.
pub format_code-valid : (v : ℕ) → valid_code_format (format_code v) ≡ true
unfolding valid_code_format format_code len
format_code-valid v =
    let digits = pad_decimal-all 6 (v % space) in
    rw (bytes_digits (pad_decimal 6 (v % space)) digits)
      (rw (length-pad_decimal 5 (v % space) (omega arith)) digits)

abbrev pub ValidDrawn : Drawn → Type 0
ValidDrawn (drawn s rest) = valid_code_format s ≡ true
ValidDrawn (unreadable rest) = Unit
ValidDrawn starved = Unit

-- Every code that GeneratePairingCode returns is well-formed.
pub generate-valid : (draws : List (Option ℕ)) → ValidDrawn (generate_pairing_code draws)
unfolding generate_pairing_code
generate-valid [] = tt
generate-valid (none ∷ draws) = tt
generate-valid (some v ∷ draws) = elim (Bool-cases (leb limit v)) [
  | inl high ↦ rw high (generate-valid draws)
  | inr low ↦ rw low (format_code-valid v)
]

-- What becomes of a draw: it prints the code it is congruent to, or the next one is taken.
abbrev pub Accepts : ℕ → List (Option ℕ) → Type 0
Accepts v draws =
    ((q : ℕ) × (n : ℕ) × (q < limit / space)
      × (n < space)
      × (v ≡ q * space + n)
      × (generate_pairing_code (some v ∷ draws) ≡ drawn (pad_decimal code_digits n) draws))
    ⊎ ((limit ≤ v) × (generate_pairing_code (some v ∷ draws) ≡ generate_pairing_code draws))

-- And no other draw is accepted: a draw is such a number, or it is at or above `limit` and the
-- next one is taken.
pub draws_cases : (v : ℕ) (draws : List (Option ℕ)) → Accepts v draws
unfolding generate_pairing_code format_code
draws_cases v draws = elim (Bool-cases (leb limit v)) [
  | inl high ↦ inr (leb→le limit v high, rw high)
  | inr low ↦ inl (v / space, v % space, ground arith, omega arith, omega arith, rw low)
]

-- A base64url character is one of the alphabet.
pub base64_char-Is : (n : ℕ) → n < 64 → is_base64_char (base64_char n) ≡ true
unfolding is_base64_char base64_char
base64_char-Is n h = ground arith
