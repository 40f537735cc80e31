-- ===== src/Library/Paths/Accepted.antt =====
-- safe_abs at a path that resolve builds.
use mathlib.Core.List.{append-nil, append_assoc}
use homesink.Base.{
  ℕ, ◌≡◌, ◌≢◌, refl, sym, ap, ◌∙◌, inl, inr, true, false, not, List, [], ◌∷◌, ◌++◌, some, Str,
  codes, str_eq_refl, str_eq_ne, ◌==◌, Bool-cases, All, all,
}
use homesink.Base.Int.{ℤ}
use homesink.Base.Decimal.{pad_decimal}
use homesink.Core.Types.{Placement}
use homesink.Library.Clusters.{Segmenter}
use homesink.Library.Sanitize.Safe.{is_safe, Named, sanitize_album-Named}
use homesink.Library.Sanitize.Filename.{Component, sanitize_filename-Component}
use homesink.Library.Paths.{
  AbsPath, cons_head, split_slash, clean_step, clean_steps, join_path, rel, escapes, safe_abs,
  pad_int, join_rel, resolve, build_rel_path,
}
use homesink.Library.Paths.Inside.{CleanName}
use homesink.Library.Paths.Names.{
  relative, pad_int-CleanName, Named-CleanName, plain-CleanName, pad_decimal-some,
  pad_decimal-plain, Component-CleanName,
}

-- Splitting at the slash after a component.
split_slash-append :
    (c s : Str) → all (λ r. not (r == 47)) c ≡ true → split_slash (c ++ 47 ∷ s) ≡ c ∷ split_slash s
unfolding split_slash
split_slash-append [] s h = refl
split_slash-append (r ∷ c) s h = elim (Bool-cases (r == 47)) [
  | inl t ↦ cc (rw t at h)
  | inr t ↦ rw t (ap (cons_head r) (split_slash-append c s (rw t at h)))
]

split_slash-one : (c : Str) → all (λ r. not (r == 47)) c ≡ true → split_slash c ≡ c ∷ []
unfolding split_slash
split_slash-one [] h = refl
split_slash-one (r ∷ c) h = elim (Bool-cases (r == 47)) [
  | inl t ↦ cc (rw t at h)
  | inr t ↦ rw t (ap (cons_head r) (split_slash-one c (rw t at h)))
]

clean_step_lem : (path : AbsPath) (c : Str) → CleanName c → clean_step path c ≡ path ++ c ∷ []
unfolding clean_step
clean_step_lem path c n =
    rw
      (
        str_eq_ne c [] n.some_text,
        str_eq_ne c (codes ".") n.not_self,
        str_eq_ne c (codes "..") n.not_parent,
      )
      refl

clean_steps_lem :
    (path : AbsPath) (cs : List Str) → All CleanName cs → clean_steps path cs ≡ path ++ cs
unfolding clean_steps
clean_steps_lem path [] h = sym (append-nil path)
clean_steps_lem path (c ∷ cs) h =
    rw (clean_step_lem path c h.0)
      (clean_steps_lem (path ++ c ∷ []) cs h.1 ∙ append_assoc path (c ∷ []) cs)

rel-append : (root rest : AbsPath) → rel root (root ++ rest) ≡ rest
unfolding rel
rel-append [] rest = refl
rel-append (b ∷ bs) rest = rw (str_eq_refl b) (rel-append bs rest)

-- The four components of a path that joinRel builds.
abbrev pub components : Str → ℤ → ℕ → Str → List Str
components album year month filename = album ∷ pad_int 4 year ∷ pad_decimal 2 month ∷ filename ∷ []

split-join_rel :
    (album : Str) (year : ℤ) (month : ℕ) (filename : Str)
    → All CleanName (components album year month filename)
    → split_slash (join_rel album year month filename) ≡ components album year month filename
unfolding join_rel
split-join_rel album year month filename h =
    split_slash-append album _ h.0.one
    ∙ ap (◌∷◌ album) (
        split_slash-append (pad_int 4 year) _ h.1.0.one
        ∙ ap (◌∷◌ (pad_int 4 year)) (
            split_slash-append (pad_decimal 2 month) filename h.1.1.0.one
            ∙ ap (◌∷◌ (pad_decimal 2 month)) (split_slash-one filename h.1.1.1.0.one)))

join_path-join_rel :
    (root : AbsPath) (album : Str) (year : ℤ) (month : ℕ) (filename : Str)
    → All CleanName (components album year month filename)
    → join_path root (join_rel album year month filename)
      ≡ root ++ components album year month filename
unfolding join_path
join_path-join_rel root album year month filename h =
    rw (split-join_rel album year month filename h)
      (clean_steps_lem root (components album year month filename) h)

escapes-components :
    (root : AbsPath) (album : Str) (year : ℤ) (month : ℕ) (filename : Str)
    → CleanName album
    → escapes (rel root (root ++ components album year month filename)) ≡ false
escapes-components root album year month filename a =
    rw (rel-append root (components album year month filename))
      (str_eq_ne album (codes "..") a.not_parent)

-- safeAbs accepts a path of four clean components whose first rune is no separator.
safe_abs-join_rel :
    (root : AbsPath) (album : Str) (year : ℤ) (month : ℕ) (filename : Str)
    → all is_safe album ≡ true
    → All CleanName (components album year month filename)
    → safe_abs root (join_rel album year month filename)
      ≡ some (root ++ components album year month filename)
unfolding safe_abs
safe_abs-join_rel root album year month filename safe h =
    rw
      (
        relative album year month filename h.0.some_text safe,
        join_path-join_rel root album year month filename h,
        escapes-components root album year month filename h.0,
      )
      refl

pub four-CleanName :
    (album : Str) (year : ℤ) (month : ℕ) (filename : Str)
    → Named album
    → Component filename
    → filename ≢ []
    → filename ≢ codes "."
    → All CleanName (components album year month filename)
four-CleanName album year month filename a f n d = (
  Named-CleanName album a,
  (
    pad_int-CleanName 4 year,
    (
      plain-CleanName (pad_decimal 2 month) (pad_decimal-some 2 month) (pad_decimal-plain 2 month),
      (Component-CleanName filename f n d, tt),
    ),
  ),
)

-- The path built for a placement is accepted below any root, and has the components album, year,
-- month and filename, unless the file's sanitised name is the single dot.
pub safe_abs-build_rel_path :
    (nfc : Str → Str) (extra : Segmenter) (root : AbsPath) (pl : Placement)
    → (resolve nfc extra pl).filename ≢ codes "."
    → (let r = resolve nfc extra pl in
        safe_abs root (build_rel_path nfc extra pl)
        ≡ some (root ++ components r.album r.year r.month r.filename))
unfolding build_rel_path resolve
safe_abs-build_rel_path nfc extra root pl d =
    let r = resolve nfc extra pl in
    let named = sanitize_album-Named nfc extra pl.album in
    let fits = sanitize_filename-Component nfc extra pl.filename in
    safe_abs-join_rel root r.album r.year r.month r.filename named.runes
      (four-CleanName r.album r.year r.month r.filename named fits.0 fits.1 d)
