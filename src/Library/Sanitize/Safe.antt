-- ===== src/Library/Sanitize/Safe.antt =====
-- What the sanitisers leave in a name: which runes it has, and how it starts and ends.
use homesink.Base.{
  ℕ, ◌≡◌, ◌≢◌, refl, Bool, true, false, not, [], ◌∷◌, ◌++◌, Str, all, trim, if◌then◌else◌, arith,
  ◌&&◌, ◌||◌, ◌==◌, leb,
}
use homesink.Base.Texts.{
  all-Prefix, all-imp, all-keep, all-trim, starts, ends, starts-trim, ends-trim,
}
use homesink.Base.Decimal.{all-append}
use homesink.Library.Clusters.{Segmenter, truncate_graphemes}
use homesink.Library.Clusters.Prefix.{truncate_graphemes-Prefix}
use homesink.Library.Sanitize.{
  album_fallback, contains_rune, is_forbidden, strip_forbidden, collapse, collapse_whitespace,
  is_dot_or_space, trim_dots_and_spaces, suffix_reserved, album_steps, sanitize_album,
  max_album_graphemes, or_else,
}

-- A rune that a sanitised name may have: it is at or above U+0020, and none of the separators / and \,
-- nor of : * ? " < > |.
abbrev pub is_safe : ℕ → Bool
is_safe r =
    leb 0x20 r
    && (not (r == 0x2f)
        && (not (r == 0x5c)
            && (not (r == 0x3a)
                && (not (r == 0x2a)
                    && (not (r == 0x3f)
                        && (not (r == 0x22)
                            && (not (r == 0x3c) && (not (r == 0x3e) && not (r == 0x7c)))))))))

kept_rune : (r : ℕ) → not (is_forbidden r) ≡ true → is_safe r ≡ true
unfolding is_forbidden contains_rune
kept_rune r h = ground arith

pub strip_forbidden-all : (s : Str) → all is_safe (strip_forbidden s) ≡ true
unfolding strip_forbidden
strip_forbidden-all s =
    all-imp (λ r. not (is_forbidden r)) is_safe (strip_forbidden s) kept_rune
      (all-keep (λ r. not (is_forbidden r)) s)

collapse-all :
    (p : ℕ → Bool) (in_run written : Bool) (s : Str)
    → p 32 ≡ true
    → all p s ≡ true
    → all p (collapse in_run written s) ≡ true
unfolding collapse
collapse-all p in_run written [] h a = refl
collapse-all p in_run written (r ∷ s) h a =
    ground (arith, collapse-all p true written s h, collapse-all p false true s h)

pub trim_dots_and_spaces-all :
    (p : ℕ → Bool) (s : Str) → all p s ≡ true → all p (trim_dots_and_spaces s) ≡ true
unfolding trim_dots_and_spaces
trim_dots_and_spaces-all p s h = all-trim is_dot_or_space p s h

all-if :
    (p : ℕ → Bool) (b : Bool) (s t : Str)
    → all p s ≡ true
    → all p t ≡ true
    → all p (if b then s else t) ≡ true
all-if p true s t h k = h
all-if p false s t h k = k

suffix_reserved-all :
    (p : ℕ → Bool) (s : Str) → p 95 ≡ true → all p s ≡ true → all p (suffix_reserved s) ≡ true
unfolding suffix_reserved
suffix_reserved-all p s h a = all-if p _ (s ++ 95 ∷ []) s (all-append p s (95 ∷ []) a (rw h refl)) a

pub or_else-all :
    (p : ℕ → Bool) (fallback s : Str)
    → all p fallback ≡ true
    → all p s ≡ true
    → all p (or_else fallback s) ≡ true
or_else-all p fallback [] h a = h
or_else-all p fallback (r ∷ s) h a = a

-- Strip, collapse and trim, which both sanitisers run.
pub cleaned-all :
    (s : Str) → all is_safe (trim_dots_and_spaces (collapse_whitespace (strip_forbidden s))) ≡ true
unfolding collapse_whitespace is_forbidden contains_rune
cleaned-all s =
    trim_dots_and_spaces-all is_safe (collapse_whitespace (strip_forbidden s))
      (collapse-all is_safe false false (strip_forbidden s) refl (strip_forbidden-all s))

pub suffixed-all : (s : Str) → all is_safe s ≡ true → all is_safe (suffix_reserved s) ≡ true
unfolding is_forbidden contains_rune
suffixed-all s = suffix_reserved-all is_safe s refl

-- A dot or a space.
abbrev pub is_edge : ℕ → Bool
is_edge r = (r == 0x2e) || (r == 0x20)

-- What a directory name must be.
pub record Named (s : Str) : Type 0 where
  pub runes : all is_safe s ≡ true
  pub first : starts is_edge s ≡ false
  pub last : ends is_edge s ≡ false
  pub some_text : s ≢ []

Named-or_else :
    (s : Str)
    → all is_safe s ≡ true
    → starts is_dot_or_space s ≡ false
    → ends is_dot_or_space s ≡ false
    → Named (or_else album_fallback s)
unfolding is_forbidden contains_rune
Named-or_else [] a f l = record { runes = refl; first = refl; last = refl; some_text = λ e. cc e }
Named-or_else (r ∷ s) a f l = record { runes = a; first = f; last = l; some_text = λ e. cc e }

Named-trimmed :
    (s : Str) → all is_safe s ≡ true → Named (or_else album_fallback (trim_dots_and_spaces s))
unfolding trim_dots_and_spaces
Named-trimmed s a =
    Named-or_else (trim is_dot_or_space s) (all-trim is_dot_or_space is_safe s a)
      (starts-trim is_dot_or_space s) (ends-trim is_dot_or_space s)

truncated-all :
    (extra : Segmenter) (s : Str) (max : ℕ)
    → all is_safe s ≡ true
    → all is_safe (truncate_graphemes extra s max) ≡ true
truncated-all extra s max =
    all-Prefix is_safe (truncate_graphemes extra s max) s (truncate_graphemes-Prefix extra s max)

-- SanitizeAlbum gives a directory name for every text: at least one rune, none of them a separator,
-- one of : * ? " < > | or below U+0020, and no dot or space at either end.
pub sanitize_album-Named :
    (nfc : Str → Str) (extra : Segmenter) (raw : Str) → Named (sanitize_album nfc extra raw)
unfolding sanitize_album album_steps
sanitize_album-Named nfc extra raw =
    let clean = trim_dots_and_spaces (collapse_whitespace (strip_forbidden (nfc raw))) in
    Named-trimmed (truncate_graphemes extra (suffix_reserved clean) max_album_graphemes) (
      truncated-all extra (suffix_reserved clean) max_album_graphemes
        (suffixed-all clean (cleaned-all (nfc raw))))
