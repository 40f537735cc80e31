-- ===== src/Auth/Token/Generated.antt =====
-- The tokens that GenerateToken makes.
use homesink.Base.{
  ℕ, zero, suc, ◌+◌, ◌*◌, ◌/◌, ◌%◌, ◌<◌, ◌≡◌, refl, true, not, List, [], ◌∷◌, Str, arith, bytes,
  len, rune_bytes, length, all, keep, All,
}
use homesink.Auth.Token.{
  base64_encode, is_base64_char, is_line_break, cut_prefix, valid_token_format, generate_token,
}
use homesink.Auth.Token.Format.{base64_char-Is}

base64_bytes : (s : Str) → all is_base64_char s ≡ true → bytes s ≡ s
unfolding bytes rune_bytes is_base64_char
base64_bytes [] h = refl
base64_bytes (r ∷ s) h = ground (arith, base64_bytes s)

base64_kept : (s : Str) → all is_base64_char s ≡ true → keep (λ r. not (is_line_break r)) s ≡ s
unfolding is_base64_char
base64_kept [] h = refl
base64_kept (r ∷ s) h = ground (arith, base64_kept s)

encode-all : (b : List ℕ) → All (λ x. x < 256) b → all is_base64_char (base64_encode b) ≡ true
unfolding base64_encode
encode-all [] h = refl
encode-all (x ∷ []) h =
    rw (base64_char-Is (x / 4) (omega (arith, h.0)), base64_char-Is (x % 4 * 16) (omega arith)) refl
encode-all (x ∷ y ∷ []) h =
    rw
      (
        base64_char-Is (x / 4) (omega (arith, h.0)),
        base64_char-Is (x % 4 * 16 + y / 16) (omega (arith, h.1.0)),
        base64_char-Is (y % 16 * 4) (omega arith),
      )
      refl
encode-all (x ∷ y ∷ z ∷ rest) h =
    rw
      (
        base64_char-Is (x / 4) (omega (arith, h.0)),
        base64_char-Is (x % 4 * 16 + y / 16) (omega (arith, h.1.0)),
        base64_char-Is (y % 16 * 4 + z / 64) (omega (arith, h.1.1.0)),
        base64_char-Is (z % 64) (omega arith),
      )
      (encode-all rest h.1.1.1)

length-encode : (k : ℕ) (b : List ℕ) → length b ≡ 3 * k + 2 → length (base64_encode b) ≡ 4 * k + 3
unfolding base64_encode
length-encode k [] h = absurd (omega arith)
length-encode k (x ∷ []) h = absurd (omega arith)
length-encode k (x ∷ y ∷ []) h = omega arith
length-encode zero (x ∷ y ∷ z ∷ rest) h = absurd (omega arith)
length-encode (suc k) (x ∷ y ∷ z ∷ rest) h =
    let tail : length (base64_encode rest) ≡ 4 * k + 3 = length-encode k rest (omega arith) in
    omega (arith, tail)

-- The token that GenerateToken makes of any 32 random bytes is accepted by ValidTokenFormat.
pub generate_token-valid :
    (b : List ℕ)
    → length b ≡ 32
    → All (λ x. x < 256) b
    → valid_token_format (generate_token b) ≡ true
unfolding valid_token_format generate_token cut_prefix len
generate_token-valid b n h =
    let formed : all is_base64_char (base64_encode b) ≡ true = encode-all b h in
    let size : length (base64_encode b) ≡ 43 = length-encode 10 b (omega arith) in
    let body = base64_encode b in
    rw (base64_bytes body formed, size, base64_kept body formed, size, formed) refl
