-- ===== src/Auth/Token.antt =====
-- backend/internal/auth/token.go, and the pairing codes of pairing.go. SHA-256 in hexadecimal is
-- the parameter `sha256_hex`; random bytes are arguments.
pub mod Format
pub mod Generated
use homesink.Base.{
  ℕ, ◌+◌, ◌-◌, ◌*◌, ◌/◌, ◌%◌, Bool, false, ◌&&◌, ◌||◌, List, [], ◌∷◌, ◌++◌, Option, none, some, Str,
  codes, str_eq, ltb, leb, ◌==◌, if◌then◌else◌, bytes, len, length, take, all, keep, not,
}
use homesink.Base.Decimal.{is_digit, pad_decimal}

-- CodeDigits, the constants `space` and `limit` of GeneratePairingCode.
abbrev pub code_digits : ℕ
code_digits = 6

abbrev pub space : ℕ
space = 1_000_000

abbrev pub limit : ℕ
limit = 4_294_967_296 - 4_294_967_296 % space

-- The code that an accepted draw prints.
unfoldable pub format_code : ℕ → Str
unfolding pad_decimal
format_code v = pad_decimal code_digits (v % space)

-- What GeneratePairingCode comes to on a supply of 32-bit draws; `none` in the supply is a failed
-- read of random bytes.
pub data Drawn : Type 0 where
  drawn : Str → List (Option ℕ) → Drawn
  unreadable : List (Option ℕ) → Drawn
  starved : Drawn

unfoldable pub generate_pairing_code : List (Option ℕ) → Drawn
unfolding format_code
generate_pairing_code [] = starved
generate_pairing_code (none ∷ draws) = unreadable draws
generate_pairing_code (some v ∷ draws) =
    let again = generate_pairing_code draws in
    if leb limit v then again else drawn (format_code v) draws

-- ValidCodeFormat.
unfoldable pub valid_code_format : Str → Bool
unfolding len bytes
valid_code_format s = if len s == code_digits then all is_digit (bytes s) else false

-- TokenPrefix, and the characters of base64url.
abbrev pub token_prefix : Str
token_prefix = codes "hs_"

unfoldable pub base64_char : ℕ → ℕ
base64_char n =
    if ltb n 26
    then 65 + n
    else if ltb n 52
    then 97 + (n - 26)
    else if ltb n 62
    then 48 + (n - 52)
    else if n == 62
    then 45
    else 95

-- base64.RawURLEncoding.EncodeToString.
unfoldable pub base64_encode : List ℕ → Str
unfolding base64_char
base64_encode [] = []
base64_encode (a ∷ []) = base64_char (a / 4) ∷ base64_char (a % 4 * 16) ∷ []
base64_encode (a ∷ b ∷ []) =
    base64_char (a / 4) ∷ base64_char (a % 4 * 16 + b / 16) ∷ base64_char (b % 16 * 4) ∷ []
base64_encode (a ∷ b ∷ c ∷ rest) =
    base64_char (a / 4)
    ∷ base64_char (a % 4 * 16 + b / 16)
    ∷ base64_char (b % 16 * 4 + c / 64)
    ∷ base64_char (c % 64)
    ∷ base64_encode rest

unfoldable pub is_base64_char : ℕ → Bool
is_base64_char r =
    (leb 65 r && leb r 90) || ((leb 97 r && leb r 122) || (is_digit r || (r == 45 || r == 95)))

-- Whether base64.RawURLEncoding.DecodeString succeeds: it skips CR and LF, and the rest must be
-- characters of the alphabet, in any number that no quantum of one character ends.
abbrev is_line_break : ℕ → Bool
is_line_break r = r == 10 || r == 13

unfoldable pub base64_decodes : Str → Bool
unfolding is_base64_char bytes
base64_decodes s =
    let body = keep (λ r. not (is_line_break r)) (bytes s) in
    if length body % 4 == 1 then false else all is_base64_char body

-- strings.CutPrefix.
unfoldable pub cut_prefix : Str → Str → Option Str
cut_prefix [] s = some s
cut_prefix (p ∷ ps) [] = none
cut_prefix (p ∷ ps) (r ∷ s) = if p == r then cut_prefix ps s else none

-- ValidTokenFormat.
unfoldable pub valid_token_format : Str → Bool
unfolding cut_prefix base64_decodes len
valid_token_format s = elim (cut_prefix token_prefix s) [
  | none ↦ false
  | some body ↦ if len body == 43 then base64_decodes body else false
]

-- GenerateToken, over its 32 random bytes.
unfoldable pub generate_token : List ℕ → Str
unfolding base64_encode
generate_token b = token_prefix ++ base64_encode b

abbrev hex_char : ℕ → ℕ
hex_char n = if ltb n 10 then 48 + n else 87 + n

-- hex.EncodeToString.
unfoldable pub hex_encode : List ℕ → Str
hex_encode [] = []
hex_encode (b ∷ rest) = hex_char (b / 16) ∷ hex_char (b % 16) ∷ hex_encode rest

-- newID, over its 8 random bytes.
unfoldable pub new_id : Str → List ℕ → Str
unfolding hex_encode
new_id prefix b = prefix ++ hex_encode b

module _ (sha256_hex : Str → Str) where
  -- HashPairingCode and HashToken.
  abbrev pub hash_pairing_code : Str → Str
  hash_pairing_code s = sha256_hex s

  abbrev pub hash_token : Str → Str
  hash_token token = sha256_hex token

  -- VerifyToken: the constant-time comparison is equality.
  unfoldable pub verify_token : Str → Str → Bool
  verify_token token stored_hash = str_eq (hash_token token) stored_hash

  -- Fingerprint.
  unfoldable pub fingerprint : Str → Str
  fingerprint [] = []
  fingerprint (r ∷ s) = take 12 (hash_token (r ∷ s))
