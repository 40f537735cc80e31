-- ===== src/Library/Sanitize/Filename.antt =====
-- SanitizeFilename: the runes and the length of the name it gives.
use homesink.Base.{
  ℕ, ◌+◌, ◌-◌, ◌≤◌, ◌<◌, ◌≡◌, ◌≢◌, refl, sym, subst, inl, inr, Bool, true, false, [], ◌∷◌, ◌++◌,
  Str, codes, len, bytes, rune_bytes, all, trim, trim_left, trim_right, trim_right_step, ltb, leb,
  if◌then◌else◌, Bool-cases, leb-false, ltb-false, arith, length-append,
}
use homesink.Base.Texts.{all-Prefix, all-left, all-right, starts, starts-trim, len-append}
use homesink.Base.Decimal.{all-append}
use homesink.Library.Clusters.{Segmenter, truncate_grapheme_bytes}
use homesink.Library.Clusters.Prefix.{
  truncate_grapheme_bytes-Prefix, len-truncate_grapheme_bytes-le,
}
use homesink.Library.Sanitize.{
  last_path_segment, strip_forbidden, collapse_whitespace, filename_fallback, max_filename_bytes,
  contains_rune, is_forbidden, is_dot_or_space, trim_dots_and_spaces, suffix_reserved, split_ext,
  or_else, fit_filename, filename_steps, refit, sanitize_filename,
}
use homesink.Library.Sanitize.Safe.{is_safe, trim_dots_and_spaces-all, cleaned-all, suffixed-all}
use homesink.Library.Sanitize.Extension.{
  is_dot, is_ext, Parts, split_ext-Parts, ext-Prefix, stem-ext,
}

-- What a name must be, that is to be one component of a path.
pub record Component (s : Str) : Type 0 where
  pub runes : all is_safe s ≡ true
  pub fits : len s ≤ 245
  pub not_parent : s ≢ codes ".."

len-cons : (r : ℕ) (s : Str) → len s ≤ len (r ∷ s)
unfolding len bytes
len-cons r s = omega (arith, length-append (rune_bytes r) (bytes s))

len-trim_left : (p : ℕ → Bool) (s : Str) → len (trim_left p s) ≤ len s
unfolding trim_left
len-trim_left p [] = omega arith
len-trim_left p (r ∷ s) = ground (arith, len-trim_left p s, len-cons r s)

len-congr : (r : ℕ) (s t : Str) → len s ≤ len t → len (r ∷ s) ≤ len (r ∷ t)
unfolding len bytes
len-congr r s t h =
    omega (arith, length-append (rune_bytes r) (bytes s), length-append (rune_bytes r) (bytes t))

len-trim_right_step : (p : ℕ → Bool) (r : ℕ) (s : Str) → len (trim_right_step p r s) ≤ len (r ∷ s)
unfolding trim_right_step
len-trim_right_step p r [] = elim (Bool-cases (p r)) [
  | inl t ↦ rw t (len-cons r [])
  | inr t ↦ rw t (omega arith)
]
len-trim_right_step p r (t ∷ ts) = omega arith

len-trim_right : (p : ℕ → Bool) (s : Str) → len (trim_right p s) ≤ len s
unfolding trim_right
len-trim_right p [] = omega arith
len-trim_right p (r ∷ s) = omega (
  arith,
  len-trim_right_step p r (trim_right p s),
  len-congr r (trim_right p s) s (len-trim_right p s),
)

len-trim_dots_and_spaces : (s : Str) → len (trim_dots_and_spaces s) ≤ len s
unfolding trim_dots_and_spaces trim
len-trim_dots_and_spaces s = omega (
  arith,
  len-trim_right is_dot_or_space (trim_left is_dot_or_space s),
  len-trim_left is_dot_or_space s,
)

if-starts :
    (b : Bool) (s : Str)
    → starts is_dot s ≡ false
    → starts is_dot (if b then s ++ 95 ∷ [] else s) ≡ false
if-starts false s h = h
if-starts true [] h = refl
if-starts true (r ∷ s) h = h

starts-suffix_reserved :
    (s : Str) → starts is_dot s ≡ false → starts is_dot (suffix_reserved s) ≡ false
unfolding suffix_reserved
starts-suffix_reserved s = if-starts _ s

starts_dot : (s : Str) → starts is_dot_or_space s ≡ false → starts is_dot s ≡ false
starts_dot [] h = refl
starts_dot (r ∷ s) h = ground arith

starts-trim_dots : (s : Str) → starts is_dot (trim_dots_and_spaces s) ≡ false
unfolding trim_dots_and_spaces
starts-trim_dots s = starts_dot (trim is_dot_or_space s) (starts-trim is_dot_or_space s)

module _ (extra : Segmenter) where
  cut-Component :
      (ext : Str)
      → is_ext ext ≡ true
      → all is_safe ext ≡ true
      → Component (truncate_grapheme_bytes extra ext max_filename_bytes)
  cut-Component ext e a =
      let cut = truncate_grapheme_bytes-Prefix extra ext max_filename_bytes in
      record {
        runes = all-Prefix is_safe (truncate_grapheme_bytes extra ext max_filename_bytes) ext cut a;
        fits = len-truncate_grapheme_bytes-le extra ext max_filename_bytes;
        not_parent = ext-Prefix (truncate_grapheme_bytes extra ext max_filename_bytes) ext cut e;
      }

  joined-Component :
      (stem ext : Str)
      → starts is_dot stem ≡ false
      → is_ext ext ≡ true
      → all is_safe stem ≡ true
      → all is_safe ext ≡ true
      → len stem + len ext ≤ max_filename_bytes
      → Component (stem ++ ext)
  joined-Component stem ext s e a b n = record {
    runes = all-append is_safe stem ext a b;
    fits = omega (arith, len-append stem ext);
    not_parent = stem-ext stem ext s e;
  }

  shortened-Component :
      (stem ext : Str)
      → is_ext ext ≡ true
      → all is_safe stem ≡ true
      → all is_safe ext ≡ true
      → len ext < max_filename_bytes
      → Component (
          trim_dots_and_spaces (truncate_grapheme_bytes extra stem (max_filename_bytes - len ext))
          ++ ext)
  shortened-Component stem ext e a b n =
      let cut = truncate_grapheme_bytes extra stem (max_filename_bytes - len ext) in
      joined-Component (trim_dots_and_spaces cut) ext (starts-trim_dots cut) e
        (trim_dots_and_spaces-all is_safe cut (
          all-Prefix is_safe cut stem
            (truncate_grapheme_bytes-Prefix extra stem (max_filename_bytes - len ext)) a))
        b
        (omega (
          arith,
          len-trim_dots_and_spaces cut,
          len-truncate_grapheme_bytes-le extra stem (max_filename_bytes - len ext),
        ))

  pub fit_filename-Component :
      (stem ext : Str)
      → starts is_dot stem ≡ false
      → is_ext ext ≡ true
      → all is_safe stem ≡ true
      → all is_safe ext ≡ true
      → Component (fit_filename extra stem ext)
  unfolding fit_filename
  fit_filename-Component stem ext s e a b = elim (Bool-cases (leb max_filename_bytes (len ext))) [
    | inl t ↦ rw t (cut-Component ext e b)
    | inr t ↦ rw t (elim (Bool-cases (ltb max_filename_bytes (len stem + len ext))) [
      | inl u ↦ rw u (shortened-Component stem ext e a b (leb-false max_filename_bytes (len ext) t))
      | inr u ↦
          rw u (
            joined-Component stem ext s e a b (ltb-false max_filename_bytes (len stem + len ext) u))
    ])
  ]

  refit-Component :
      (whole : Str) (parts : Str × Str)
      → Parts whole parts
      → starts is_dot whole ≡ false
      → all is_safe whole ≡ true
      → Component (refit extra parts)
  refit-Component whole (stem, ext) p s a =
      let both = subst (λ (x : Str). all is_safe x ≡ true) (sym p.joined) a in
      fit_filename-Component (suffix_reserved stem) ext (starts-suffix_reserved stem (p.stem s))
        p.ext (suffixed-all stem (all-left is_safe stem ext both)) (all-right is_safe stem ext both)

or_else-Component : (s : Str) → Component s → Component (or_else filename_fallback s)
unfolding is_forbidden contains_rune len bytes rune_bytes
or_else-Component [] c = record { runes = refl; fits = omega arith; not_parent = λ e. cc e }
or_else-Component (r ∷ s) c = c

or_else-some : (fallback s : Str) → fallback ≢ [] → or_else fallback s ≢ []
or_else-some fallback [] h e = h e
or_else-some fallback (r ∷ s) h e = cc e

-- SanitizeFilename gives a name of at most 245 bytes for every text: it is not empty and not the
-- parent directory, and no rune of it is a separator, one of : * ? " < > | or below U+0020.
pub sanitize_filename-Component :
    (nfc : Str → Str) (extra : Segmenter) (raw : Str)
    → Component (sanitize_filename nfc extra raw) × (sanitize_filename nfc extra raw ≢ [])
unfolding sanitize_filename filename_steps
sanitize_filename-Component nfc extra raw =
    let s = filename_steps nfc raw in
    let parts = split_ext s in
    (
      or_else-Component (refit extra parts) (
          refit-Component extra s parts (split_ext-Parts s)
            (starts-trim_dots (collapse_whitespace (strip_forbidden (last_path_segment (nfc raw)))))
            (cleaned-all (last_path_segment (nfc raw)))),
      or_else-some filename_fallback (refit extra parts) (λ e. cc e),
    )
