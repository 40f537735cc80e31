-- ===== src/Library/Place/Suffix.antt =====
-- SuffixedFilename: the names it gives to different blobs.
use mathlib.Core.List.{append_assoc}
use homesink.Base.{
  ℕ, ◌+◌, ◌≤◌, ◌<◌, ◌≡◌, ◌≢◌, refl, sym, ap, ap₂, subst, ◌∙◌, inl, inr, true, false, [], ◌∷◌, ◌++◌,
  Str, take, drop, length, length-take, all, bytes, rune_bytes, len, leb, le→ltb, ◌==◌, ==_iff,
  Bool-cases, arith,
}
use homesink.Base.Texts.{Prefix, take-drop, all-Prefix, len-append}
use homesink.Library.Clusters.{Segmenter}
use homesink.Library.Sanitize.{split_ext, fit_filename, max_filename_bytes}
use homesink.Library.Sanitize.Extension.{Parts, split_ext-Parts}
use homesink.Library.Paths.{collision_sep, collision_hex_len, with_suffix, suffixed_filename}
use homesink.Library.Place.{is_hex, valid_hash}

-- A hash that is let in is its own bytes.
hex_rune :
    (r : ℕ) (s : Str)
    → all is_hex (rune_bytes r ++ s) ≡ true
    → (rune_bytes r ≡ r ∷ []) × (is_hex r ≡ true) × (all is_hex s ≡ true)
unfolding rune_bytes
hex_rune r s h = ground arith

hex_bytes : (s : Str) → all is_hex (bytes s) ≡ true → (bytes s ≡ s) × (all is_hex s ≡ true)
unfolding bytes
hex_bytes [] h = (refl, refl)
hex_bytes (r ∷ s) h =
    let (one, hex, rest) = hex_rune r (bytes s) h in
    let (own, runes) = hex_bytes s rest in (ap₂ ◌++◌ one own, rw hex runes)

-- What validHash tells.
pub record Hex (s : Str) : Type 0 where
  pub long : length s ≡ 64
  pub hex : all is_hex s ≡ true

valid_hash-Hex : (s : Str) → valid_hash s ≡ true → Hex s
unfolding valid_hash
valid_hash-Hex s h = elim (Bool-cases (length (bytes s) == 64)) [
  | inl t ↦
      let (own, runes) = hex_bytes s (rw t at h) in
      record { long = ap length (sym own) ∙ (==_iff (length (bytes s)) 64).0 t; hex = runes }
  | inr t ↦ cc (rw t at h)
]

hex_own : (s : Str) → all is_hex s ≡ true → bytes s ≡ s
unfolding bytes rune_bytes
hex_own [] h = refl
hex_own (r ∷ s) h = ground (arith, hex_own s)

len-hash : (s : Str) → Hex s → len s ≡ 64
unfolding len
len-hash s h = ap length (hex_own s h.hex) ∙ h.long

len-prefix : (s : Str) → Hex s → len (take 8 s) ≡ 8
unfolding len
len-prefix s h =
    let p : Prefix (take 8 s) s = record { rest = drop 8 s; whole = take-drop 8 s } in
    ap length (hex_own (take 8 s) (all-Prefix is_hex (take 8 s) s p h.hex))
    ∙ omega (arith, length-take 8 s, h.long)

cancel_left : (s t u : Str) → s ++ t ≡ s ++ u → t ≡ u
cancel_left [] t u h = h
cancel_left (r ∷ s) t u h = cancel_left s t u cc

cancel_right : (a b s t : Str) → length a ≡ length b → a ++ s ≡ b ++ t → a ≡ b
cancel_right [] [] s t n h = refl
cancel_right [] (y ∷ b) s t n h = absurd (omega arith)
cancel_right (x ∷ a) [] s t n h = absurd (omega arith)
cancel_right (x ∷ a) (y ∷ b) s t n h =
    let heads : x ≡ y = cc h in
    let tails : a ++ s ≡ b ++ t = cc h in ap₂ ◌∷◌ heads (cancel_right a b s t (omega arith) tails)

not_over : (a b : ℕ) → b < a → leb a b ≡ false
not_over a b h = ground arith

fit_filename-room :
    (extra : Segmenter) (stem ext : Str)
    → len stem + len ext ≤ max_filename_bytes
    → len ext < max_filename_bytes
    → fit_filename extra stem ext ≡ stem ++ ext
unfolding fit_filename
fit_filename-room extra stem ext h k =
    rw (not_over max_filename_bytes (len ext) k, le→ltb max_filename_bytes (len stem + len ext) h)
      refl

len-sep : len collision_sep ≡ 2
unfolding len bytes rune_bytes
len-sep = refl

-- Where the name leaves room, the suffix is in it whole.
with_suffix_lem :
    (extra : Segmenter) (filename hash : Str) (parts : Str × Str)
    → Parts filename parts
    → len filename ≤ 235
    → Hex hash
    → with_suffix extra hash parts ≡ (parts.0 ++ collision_sep ++ take 8 hash) ++ parts.1
with_suffix_lem extra filename hash (stem, ext) p room h =
    let whole : len stem + len ext ≤ 235 =
      subst (λ (n : ℕ). n ≤ 235) (sym (ap len p.joined) ∙ len-append stem ext) room in
    let added : len (stem ++ collision_sep ++ take 8 hash) ≡ len stem + 2 + 8 =
      len-append (stem ++ collision_sep) (take 8 hash)
      ∙ ap₂ ◌+◌ (len-append stem collision_sep ∙ ap (λ (n : ℕ). len stem + n) len-sep)
          (len-prefix hash h) in
    fit_filename-room extra (stem ++ collision_sep ++ take 8 hash) ext (omega (arith, whole, added))
      (omega (arith, whole))

same_parts : (s a b ext : Str) → length a ≡ length b → (s ++ a) ++ ext ≡ (s ++ b) ++ ext → a ≡ b
same_parts s a b ext n e =
    cancel_right a b ext ext n
      (cancel_left s (a ++ ext) (b ++ ext) (sym (append_assoc s a ext) ∙ e ∙ append_assoc s b ext))

prefix-long : (s : Str) → Hex s → length (take 8 s) ≡ 8
prefix-long s h = omega (arith, length-take 8 s, h.long)

suffixed_filename-whole :
    (extra : Segmenter) (filename hash : Str)
    → Hex hash
    → len filename ≤ 235
    → suffixed_filename extra filename hash
      ≡ ((split_ext filename).0 ++ collision_sep ++ take 8 hash) ++ (split_ext filename).1
unfolding suffixed_filename
suffixed_filename-whole extra filename hash h room =
    rw (le→ltb (len hash) collision_hex_len (omega (arith, len-hash hash h)))
      (with_suffix_lem extra filename hash (split_ext filename) (split_ext-Parts filename) room h)

-- Two blobs whose hashes differ in the first eight digits get different names from one name of at
-- most 235 bytes.
pub suffixed_filename-apart :
    (extra : Segmenter) (filename h k : Str)
    → valid_hash h ≡ true
    → valid_hash k ≡ true
    → len filename ≤ 235
    → take 8 h ≢ take 8 k
    → suffixed_filename extra filename h ≢ suffixed_filename extra filename k
suffixed_filename-apart extra filename h k vh vk room apart e =
    let hh = valid_hash-Hex h vh in
    let hk = valid_hash-Hex k vk in
    let (stem, ext) = split_ext filename in
    apart (
      same_parts (stem ++ collision_sep) (take 8 h) (take 8 k) ext
        (prefix-long h hh ∙ sym (prefix-long k hk))
        (sym (suffixed_filename-whole extra filename h hh room)
          ∙ e
          ∙ suffixed_filename-whole extra filename k hk room))
