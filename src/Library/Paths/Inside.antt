-- ===== src/Library/Paths/Inside.antt =====
-- safe_abs: where the path that it gives lies.
use homesink.Base.{
  ℕ, ◌≡◌, ◌≢◌, refl, sym, ap, ap₂, subst, ◌∙◌, ◌⊎◌, inl, inr, Bool, true, false, not, List, [], ◌∷◌,
  ◌++◌, none, some, Str, codes, str_eq, str_eq_sound, str_eq_refl, ◌==◌, if◌then◌else◌, Bool-cases,
  All, all,
}
use homesink.Library.Paths.{
  AbsPath, cons_head, split_slash, drop_last, clean_step, clean_steps, join_path, rel, not_relative,
  escapes, safe_abs,
}

-- A component of a clean path.
pub record CleanName (c : Str) : Type 0 where
  pub some_text : c ≢ []
  pub not_self : c ≢ codes "."
  pub not_parent : c ≢ codes ".."
  pub one : all (λ r. not (r == 47)) c ≡ true

-- Where the target is not below the base, the relative path begins with the parent.
rel_lem :
    (base target : AbsPath)
    → (target ≡ base ++ rel base target) ⊎ (escapes (rel base target) ≡ true)
unfolding rel
rel_lem [] target = inl refl
rel_lem (b ∷ bs) [] = inr refl
rel_lem (b ∷ bs) (t ∷ ts) = elim (Bool-cases (str_eq b t)) [
  | inr e ↦ rw e (inr refl)
  | inl e ↦ rw e (elim (rel_lem bs ts) [
    | inr up ↦ inr up
    | inl below ↦ inl (ap₂ ◌∷◌ (sym (str_eq_sound b t e)) below)
  ])
]

All-drop_last : (p : AbsPath) → All CleanName p → All CleanName (drop_last p)
All-drop_last [] h = tt
All-drop_last (x ∷ []) h = tt
All-drop_last (x ∷ y ∷ xs) h = (h.0, All-drop_last (y ∷ xs) h.1)

pub All-append {ℓ κ} :
    {A : Type ℓ} (P : A → Type κ) (xs ys : List A) → All P xs → All P ys → All P (xs ++ ys)
All-append P [] ys h k = k
All-append P (x ∷ xs) ys h k = (h.0, All-append P xs ys h.1 k)

-- Each part of a split has no slash.
abbrev NoSlash : Str → Type 0
NoSlash c = all (λ r. not (r == 47)) c ≡ true

cons_head-NoSlash :
    (r : ℕ) (cs : List Str) → (r == 47) ≡ false → All NoSlash cs → All NoSlash (cons_head r cs)
cons_head-NoSlash r [] h k = (rw h refl, tt)
cons_head-NoSlash r (c ∷ cs) h k = (rw h k.0, k.1)

split_slash-NoSlash : (s : Str) → All NoSlash (split_slash s)
unfolding split_slash
split_slash-NoSlash [] = (refl, tt)
split_slash-NoSlash (r ∷ s) = elim (Bool-cases (r == 47)) [
  | inl t ↦ rw t (refl, split_slash-NoSlash s)
  | inr t ↦ rw t (cons_head-NoSlash r (split_slash s) t (split_slash-NoSlash s))
]

pub str_eq-false : (c d : Str) → str_eq c d ≡ false → c ≢ d
str_eq-false c d h e = cc (sym h ∙ subst (λ (x : Str). str_eq x d ≡ true) (sym e) (str_eq_refl d))

clean_step-CleanName :
    (path : AbsPath) (c : Str) → All CleanName path → NoSlash c → All CleanName (clean_step path c)
unfolding clean_step
clean_step-CleanName path c h k = elim (Bool-cases (str_eq c [])) [
  | inl t ↦ rw t h
  | inr e ↦ rw e (elim (Bool-cases (str_eq c (codes "."))) [
    | inl t ↦ rw t h
    | inr s ↦ rw s (elim (Bool-cases (str_eq c (codes ".."))) [
      | inl t ↦ rw t (All-drop_last path h)
      | inr p ↦ rw p (
          All-append CleanName path (c ∷ []) h (
            record {
              some_text = str_eq-false c [] e;
              not_self = str_eq-false c (codes ".") s;
              not_parent = str_eq-false c (codes "..") p;
              one = k;
            },
            tt,
          ))
    ])
  ])
]

clean_steps-CleanName :
    (path : AbsPath) (cs : List Str)
    → All CleanName path
    → All NoSlash cs
    → All CleanName (clean_steps path cs)
unfolding clean_steps
clean_steps-CleanName path [] h k = h
clean_steps-CleanName path (c ∷ cs) h k =
    clean_steps-CleanName (clean_step path c) cs (clean_step-CleanName path c h k.0) k.1

-- A path that is below the root, but not the root.
pub record Below (root abs : AbsPath) : Type 0 where
  pub rest : List Str
  pub path : abs ≡ root ++ rest
  pub proper : rest ≢ []
  pub names : All CleanName rest

All-right : (xs ys : AbsPath) → All CleanName (xs ++ ys) → All CleanName ys
All-right [] ys h = h
All-right (x ∷ xs) ys h = All-right xs ys h.1

rel-Below :
    (root abs : AbsPath) → All CleanName abs → escapes (rel root abs) ≡ false → Below root abs
rel-Below root abs a e = elim (rel_lem root abs) [
  | inr up ↦ cc (sym up ∙ e)
  | inl p ↦ record {
    rest = rel root abs;
    path = p;
    proper = λ n. cc (sym e ∙ ap escapes n);
    names = All-right root (rel root abs) (subst (All CleanName) p a);
  }
]

guards :
    (b c : Bool) (x y : AbsPath)
    → (if b then none else if c then none else some x) ≡ some y
    → (c ≡ false) × (x ≡ y)
guards true c x y h = cc h
guards false true x y h = cc h
guards false false x y h = (refl, cc h)

-- Whatever the text, a path that safeAbs gives is a proper descendant of the root, and no component
-- below the root is empty, has a separator, or is one of the two special names.
pub safe_abs-Below :
    (root abs : AbsPath) (rel_path : Str)
    → All CleanName root
    → safe_abs root rel_path ≡ some abs
    → Below root abs
unfolding safe_abs join_path
safe_abs-Below root abs rel_path c h =
    let g =
      guards (not_relative rel_path) (escapes (rel root (join_path root rel_path)))
        (join_path root rel_path) abs h in
    subst (Below root) g.1 (
      rel-Below root (join_path root rel_path)
        (clean_steps-CleanName root (split_slash rel_path) c (split_slash-NoSlash rel_path)) g.0)
