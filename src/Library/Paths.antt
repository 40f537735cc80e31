-- ===== src/Library/Paths.antt =====
-- backend/internal/library/paths.go. An absolute clean path is the list of its components, the
-- outermost first; a relative path is a text. A hash is a text of one-byte runes.
pub mod Inside
pub mod Names
pub mod Accepted
use homesink.Base.{
  ℕ, suc, ◌-◌, Bool, true, ◌||◌, List, [], ◌∷◌, ◌++◌, map, Option, none, some, Str, codes, str_eq,
  take, len, ltb, ◌==◌, if◌then◌else◌,
}
use homesink.Base.Int.{ℤ, pos, negsuc}
use homesink.Base.Decimal.{pad_decimal}
use homesink.Core.Types.{Placement}
use homesink.Library.Clusters.{Segmenter}
use homesink.Library.Sanitize.{sanitize_album, sanitize_filename, split_ext, fit_filename}
use homesink.Library.Calendar.{year_month}

-- collisionSep and collisionHexLen.
abbrev pub collision_sep : Str
collision_sep = codes "__"

abbrev pub collision_hex_len : ℕ
collision_hex_len = 8

pub record Resolved : Type 0 where
  pub album : Str
  pub year : ℤ
  pub month : ℕ
  pub filename : Str
  pub rel_path : Str

-- The verb %0*d, of which the sign takes a place.
unfoldable pub pad_int : ℕ → ℤ → Str
unfolding pad_decimal
pad_int width (pos n) = pad_decimal width n
pad_int width (negsuc n) = 45 ∷ pad_decimal (width - 1) (suc n)

unfoldable pub join_rel : Str → ℤ → ℕ → Str → Str
unfolding pad_int pad_decimal
join_rel album year month filename =
    album ++ 47 ∷ (pad_int 4 year ++ 47 ∷ (pad_decimal 2 month ++ 47 ∷ filename))

-- SuffixedFilename.
abbrev pub with_suffix : Segmenter → Str → Str × Str → Str
with_suffix extra hash (stem, ext) =
    fit_filename extra (stem ++ collision_sep ++ take collision_hex_len hash) ext

unfoldable pub suffixed_filename : Segmenter → Str → Str → Str
unfolding split_ext fit_filename
suffixed_filename extra filename hash =
    if ltb (len hash) collision_hex_len
    then filename
    else with_suffix extra hash (split_ext filename)

module _ (nfc : Str → Str) (extra : Segmenter) where
  abbrev resolve_at : ℤ × ℕ → Placement → Resolved
  resolve_at (y, m) pl =
      let a = sanitize_album nfc extra pl.album in
      let f = sanitize_filename nfc extra pl.filename in
      record { album = a; year = y; month = m; filename = f; rel_path = join_rel a y m f }

  unfoldable pub resolve : Placement → Resolved
  unfolding year_month
  resolve pl = resolve_at (year_month pl.captured_at_ms pl.captured_offset_min) pl

  unfoldable pub build_rel_path : Placement → Str
  unfolding resolve
  build_rel_path pl = (resolve pl).rel_path

abbrev pub AbsPath : Type 0
AbsPath = List Str

-- filepath.Join of an absolute path and a relative one, which ends in filepath.Clean.
abbrev cons_head : ℕ → List Str → List Str
cons_head r [] = (r ∷ []) ∷ []
cons_head r (c ∷ cs) = (r ∷ c) ∷ cs

unfoldable pub split_slash : Str → List Str
split_slash [] = [] ∷ []
split_slash (r ∷ s) = let rest = split_slash s in if r == 47 then [] ∷ rest else cons_head r rest

abbrev pub drop_last {ℓ} : {A : Type ℓ} → List A → List A
drop_last [] = []
drop_last (x ∷ []) = []
drop_last (x ∷ y ∷ xs) = x ∷ drop_last (y ∷ xs)

unfoldable pub clean_step : AbsPath → Str → AbsPath
unfolding str_eq
clean_step path c =
    if str_eq c [] || str_eq c (codes ".")
    then path
    else if str_eq c (codes "..")
    then drop_last path
    else path ++ c ∷ []

unfoldable pub clean_steps : AbsPath → List Str → AbsPath
unfolding clean_step
clean_steps path [] = path
clean_steps path (c ∷ cs) = clean_steps (clean_step path c) cs

unfoldable pub join_path : AbsPath → Str → AbsPath
unfolding split_slash clean_steps
join_path root rel_path = clean_steps root (split_slash rel_path)

-- filepath.Rel of two absolute clean paths, as components; "." has none.
abbrev pub ups : AbsPath → List Str
ups path = map (λ c. codes "..") path

unfoldable pub rel : AbsPath → AbsPath → List Str
unfolding str_eq
rel [] target = target
rel (b ∷ bs) [] = ups (b ∷ bs)
rel (b ∷ bs) (t ∷ ts) = if str_eq b t then rel bs ts else ups (b ∷ bs) ++ t ∷ ts

-- The guards of safeAbs, before and after the join.
abbrev pub not_relative : Str → Bool
not_relative [] = true
not_relative (r ∷ s) = (r == 47) || (r == 92)

abbrev pub escapes : List Str → Bool
escapes [] = true
escapes (c ∷ cs) = str_eq c (codes "..")

-- safeAbs; none stands for ErrUnsafePath.
unfoldable pub safe_abs : AbsPath → Str → Option AbsPath
unfolding join_path rel
safe_abs root rel_path =
    let abs = join_path root rel_path in
    if not_relative rel_path then none else if escapes (rel root abs) then none else some abs
