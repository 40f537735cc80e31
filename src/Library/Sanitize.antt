-- ===== src/Library/Sanitize.antt =====
-- backend/internal/library/sanitize.go. The Unicode normal form C of a text is the parameter `nfc`,
-- and grapheme clusters are those of Library/Clusters.
pub mod Safe
pub mod Extension
pub mod Filename
use homesink.Base.{
  ℕ, ◌+◌, ◌-◌, Bool, true, false, not, ◌&&◌, ◌||◌, List, [], ◌∷◌, ◌++◌, Option, none, some, Str,
  codes, str_eq, keep, len, to_lower, is_space, trim, ltb, leb, ◌==◌, if◌then◌else◌,
}
use homesink.Library.Clusters.{Segmenter, truncate_graphemes, truncate_grapheme_bytes}

-- AlbumFallback, FilenameFallback, MaxAlbumGraphemes and maxFilenameBytes.
abbrev pub album_fallback : Str
album_fallback = codes "Unsortiert"

abbrev pub filename_fallback : Str
filename_fallback = codes "datei"

abbrev pub max_album_graphemes : ℕ
max_album_graphemes = 64

abbrev pub max_filename_bytes : ℕ
max_filename_bytes = 245

-- forbiddenPathRunes, and membership in a list of runes or of names.
unfoldable pub contains_rune : ℕ → Str → Bool
contains_rune r [] = false
contains_rune r (t ∷ ts) = (t == r) || contains_rune r ts

abbrev pub forbidden_path_runes : Str
forbidden_path_runes = codes "/\\:*?\"<>|"

unfoldable pub contains_name : Str → List Str → Bool
unfolding str_eq
contains_name s [] = false
contains_name s (t ∷ ts) = str_eq t s || contains_name s ts

abbrev pub reserved_names : List Str
reserved_names =
    codes "con"
    ∷ codes "prn"
    ∷ codes "aux"
    ∷ codes "nul"
    ∷ codes "com1"
    ∷ codes "com2"
    ∷ codes "com3"
    ∷ codes "com4"
    ∷ codes "com5"
    ∷ codes "com6"
    ∷ codes "com7"
    ∷ codes "com8"
    ∷ codes "com9"
    ∷ codes "lpt1"
    ∷ codes "lpt2"
    ∷ codes "lpt3"
    ∷ codes "lpt4"
    ∷ codes "lpt5"
    ∷ codes "lpt6"
    ∷ codes "lpt7"
    ∷ codes "lpt8"
    ∷ codes "lpt9"
    ∷ []

-- The characters that stripForbidden drops.
unfoldable pub is_forbidden : ℕ → Bool
unfolding contains_rune
is_forbidden r = ltb r 0x20 || contains_rune r forbidden_path_runes

unfoldable pub strip_forbidden : Str → Str
unfolding is_forbidden
strip_forbidden s = keep (λ r. not (is_forbidden r)) s

-- collapseWhitespace: inRun, and whether anything has been written.
unfoldable pub collapse : Bool → Bool → Str → Str
unfolding is_space
collapse in_run written [] = []
collapse in_run written (r ∷ s) =
    let skipped = collapse true written s in
    let rest = collapse false true s in
    if is_space r then skipped else if in_run && written then 32 ∷ r ∷ rest else r ∷ rest

unfoldable pub collapse_whitespace : Str → Str
unfolding collapse
collapse_whitespace s = collapse false false s

abbrev pub is_dot_or_space : ℕ → Bool
is_dot_or_space r = (r == 46) || (r == 32)

unfoldable pub trim_dots_and_spaces : Str → Str
unfolding trim
trim_dots_and_spaces s = trim is_dot_or_space s

-- strings.ToLower meets no name of the list that ASCII lowering does not.
unfoldable pub suffix_reserved : Str → Str
unfolding to_lower contains_name
suffix_reserved s = if contains_name (to_lower s) reserved_names then s ++ 95 ∷ [] else s

-- strings.LastIndexAny: what follows the last rune that passes the test.
abbrev pub is_separator : ℕ → Bool
is_separator r = (r == 47) || (r == 92)

abbrev pub or_here : Bool → Str → Option Str → Option Str
or_here b s (some t) = some t
or_here b s none = if b then some s else none

unfoldable pub after_last : (ℕ → Bool) → Str → Option Str
after_last p [] = none
after_last p (r ∷ s) = or_here (p r) s (after_last p s)

abbrev pub or_all : Str → Option Str → Str
or_all s none = s
or_all s (some t) = t

unfoldable pub last_path_segment : Str → Str
unfolding after_last
last_path_segment s = or_all s (after_last is_separator s)

-- strings.LastIndexByte of a dot, as what stands before it and after it.
abbrev pub or_dot : ℕ → Str → Option (Str × Str) → Option (Str × Str)
or_dot r s (some (a, b)) = some (r ∷ a, b)
or_dot r s none = if r == 46 then some ([], s) else none

unfoldable pub last_dot : Str → Option (Str × Str)
last_dot [] = none
last_dot (r ∷ s) = or_dot r s (last_dot s)

abbrev pub at_dot : Str → Option (Str × Str) → Str × Str
at_dot s none = (s, [])
at_dot s (some ([], b)) = (s, [])
at_dot s (some (r ∷ a, b)) = (r ∷ a, 46 ∷ b)

unfoldable pub split_ext : Str → Str × Str
unfolding last_dot
split_ext s = at_dot s (last_dot s)

abbrev pub or_else : Str → Str → Str
or_else fallback [] = fallback
or_else fallback (r ∷ s) = r ∷ s

-- The steps of SanitizeFilename before the split, and after it.
unfoldable pub filename_steps : (Str → Str) → Str → Str
unfolding last_path_segment strip_forbidden collapse_whitespace trim_dots_and_spaces
filename_steps nfc raw =
    trim_dots_and_spaces (collapse_whitespace (strip_forbidden (last_path_segment (nfc raw))))

module _ (extra : Segmenter) where
  -- fitFilename, whose length is that of its bytes.
  unfoldable pub fit_filename : Str → Str → Str
  unfolding truncate_grapheme_bytes trim_dots_and_spaces
  fit_filename stem ext =
      if leb max_filename_bytes (len ext)
      then truncate_grapheme_bytes extra ext max_filename_bytes
      else if ltb max_filename_bytes (len stem + len ext)
      then trim_dots_and_spaces (truncate_grapheme_bytes extra stem (max_filename_bytes - len ext))
        ++ ext
      else stem ++ ext

  abbrev pub refit : Str × Str → Str
  refit (stem, ext) = fit_filename (suffix_reserved stem) ext

module _ (nfc : Str → Str) (extra : Segmenter) where
  -- The steps of SanitizeAlbum before the fallback.
  unfoldable pub album_steps : Str → Str
  unfolding strip_forbidden collapse_whitespace trim_dots_and_spaces suffix_reserved
      truncate_graphemes
  album_steps raw = trim_dots_and_spaces (
      truncate_graphemes extra
        (suffix_reserved (trim_dots_and_spaces (collapse_whitespace (strip_forbidden (nfc raw)))))
        max_album_graphemes)

  unfoldable pub sanitize_album : Str → Str
  unfolding album_steps
  sanitize_album raw = or_else album_fallback (album_steps raw)

  unfoldable pub sanitize_filename : Str → Str
  unfolding filename_steps split_ext fit_filename
  sanitize_filename raw =
      or_else filename_fallback (refit extra (split_ext (filename_steps nfc raw)))
