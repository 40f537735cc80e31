-- ===== src/Library/Files/Stat.antt =====
-- What os.Stat finds after a rename, a link or a removal.
use homesink.Base.{
  ℕ, ◌≡◌, ◌≢◌, refl, sym, ap, ap₂, subst, ◌∙◌, inl, inr, Bool, true, false, [], ◌∷◌, ◌++◌, Option,
  none, some, str_eq, str_eq_sound, str_eq_refl, ◌==◌, ==_iff, if◌then◌else◌, Bool-cases,
}
use homesink.Library.Paths.{AbsPath}
use homesink.Library.Files.{
  Files, path_eq, stat, remove_file, rename, rename_from, move, rename_inodes, link, link_inodes,
}

pub path_eq_sound : (a b : AbsPath) → path_eq a b ≡ true → a ≡ b
unfolding path_eq
path_eq_sound [] [] h = refl
path_eq_sound [] (c ∷ cs) h = cc h
path_eq_sound (c ∷ cs) [] h = cc h
path_eq_sound (c ∷ cs) (d ∷ ds) h = elim (Bool-cases (str_eq c d)) [
  | inl t ↦ ap₂ ◌∷◌ (str_eq_sound c d t) (path_eq_sound cs ds (rw t at h))
  | inr t ↦ cc (rw t at h)
]

pub path_eq_refl : (a : AbsPath) → path_eq a a ≡ true
unfolding path_eq
path_eq_refl [] = refl
path_eq_refl (c ∷ cs) = rw (str_eq_refl c) (path_eq_refl cs)

pub path_eq_ne : (a b : AbsPath) → a ≢ b → path_eq a b ≡ false
path_eq_ne a b n = elim (Bool-cases (path_eq a b)) [
  | inl t ↦ absurd (n (path_eq_sound a b t))
  | inr t ↦ t
]

pub stat-remove_file : (p q : AbsPath) (fs : Files) → p ≢ q → stat q (remove_file p fs) ≡ stat q fs
unfolding stat remove_file
stat-remove_file p q [] n = refl
stat-remove_file p q (f ∷ fs) n = elim (Bool-cases (path_eq f.path p)) [
  | inl t ↦
      let other = path_eq_ne f.path q (λ e. n (sym (path_eq_sound f.path p t) ∙ e)) in
      rw (t, other) (stat-remove_file p q fs n)
  | inr t ↦ rw t (
      ap (λ (o : Option ℕ). if path_eq f.path q then some f.inode else o)
        (stat-remove_file p q fs n))
]

stat-remove_file_same : (p : AbsPath) (fs : Files) → stat p (remove_file p fs) ≡ none
unfolding stat remove_file
stat-remove_file_same p [] = refl
stat-remove_file_same p (f ∷ fs) = elim (Bool-cases (path_eq f.path p)) [
  | inl t ↦ rw t (stat-remove_file_same p fs)
  | inr t ↦ rw t (rw t (stat-remove_file_same p fs))
]

stat-append_same :
    (p : AbsPath) (i : ℕ) (fs : Files)
    → stat p fs ≡ none
    → stat p (fs ++ record { path = p; inode = i } ∷ []) ≡ some i
unfolding stat
stat-append_same p i [] h = rw (path_eq_refl p) refl
stat-append_same p i (f ∷ fs) h = elim (Bool-cases (path_eq f.path p)) [
  | inl t ↦ cc (rw t at h)
  | inr t ↦ rw t (stat-append_same p i fs (rw t at h))
]

stat-append :
    (p q : AbsPath) (i : ℕ) (fs : Files)
    → p ≢ q
    → stat q (fs ++ record { path = p; inode = i } ∷ []) ≡ stat q fs
unfolding stat
stat-append p q i [] n = rw (path_eq_ne p q n) refl
stat-append p q i (f ∷ fs) n =
    ap (λ (o : Option ℕ). if path_eq f.path q then some f.inode else o) (stat-append p q i fs n)

-- A rename that succeeds.
pub record Renamed (from to : AbsPath) (fs fs' : Files) : Type 0 where
  pub landed : stat to fs' ≡ stat from fs
  pub others : (q : AbsPath) → from ≢ q → to ≢ q → stat q fs' ≡ stat q fs

move-Renamed :
    (from to : AbsPath) (i : ℕ) (fs : Files)
    → stat from fs ≡ some i
    → Renamed from to fs (move from to i fs)
move-Renamed from to i fs h = record {
  landed =
      stat-append_same to i (remove_file to (remove_file from fs))
        (stat-remove_file_same to (remove_file from fs))
      ∙ sym h;
  others = λ q a b.
      stat-append to q i (remove_file to (remove_file from fs)) b
      ∙ stat-remove_file to q (remove_file from fs) b
      ∙ stat-remove_file from q fs a;
}

rename_inodes-Renamed :
    (from to : AbsPath) (i : ℕ) (target : Option ℕ) (fs : Files)
    → stat from fs ≡ some i
    → stat to fs ≡ target
    → Renamed from to fs (rename_inodes from to i target fs)
rename_inodes-Renamed from to i none fs h k = move-Renamed from to i fs h
rename_inodes-Renamed from to i (some j) fs h k = elim (Bool-cases (i == j)) [
  | inl t ↦
      rw t
        (record { landed = k ∙ ap some (sym ((==_iff i j).0 t)) ∙ sym h; others = λ q a b. refl })
  | inr t ↦ rw t (move-Renamed from to i fs h)
]

rename_from-Renamed :
    (from to : AbsPath) (o : Option ℕ) (fs fs' : Files)
    → stat from fs ≡ o
    → rename_from from to o fs ≡ some fs'
    → Renamed from to fs fs'
rename_from-Renamed from to none fs fs' h k = cc k
rename_from-Renamed from to (some i) fs fs' h k =
    subst (Renamed from to fs) (cc k) (rename_inodes-Renamed from to i (stat to fs) fs h refl)

pub rename-Renamed :
    (fault : Bool) (from to : AbsPath) (fs fs' : Files)
    → rename fault from to fs ≡ some fs'
    → Renamed from to fs fs'
unfolding rename
rename-Renamed true from to fs fs' h = cc h
rename-Renamed false from to fs fs' h = rename_from-Renamed from to (stat from fs) fs fs' refl h

-- A link that succeeds.
pub record Linked (from to : AbsPath) (fs fs' : Files) : Type 0 where
  pub landed : stat to fs' ≡ stat from fs
  pub others : (q : AbsPath) → to ≢ q → stat q fs' ≡ stat q fs

link_inodes-Linked :
    (from to : AbsPath) (o t : Option ℕ) (fs fs' : Files)
    → stat from fs ≡ o
    → stat to fs ≡ t
    → link_inodes to o t fs ≡ some fs'
    → Linked from to fs fs'
link_inodes-Linked from to none t fs fs' h k l = cc l
link_inodes-Linked from to (some i) (some j) fs fs' h k l = cc l
link_inodes-Linked from to (some i) none fs fs' h k l = subst (Linked from to fs) (cc l) (record {
  landed = stat-append_same to i fs k ∙ sym h;
  others = λ q a. stat-append to q i fs a;
})

pub link-Linked :
    (fault : Bool) (from to : AbsPath) (fs fs' : Files)
    → link fault from to fs ≡ some fs'
    → Linked from to fs fs'
unfolding link
link-Linked true from to fs fs' h = cc h
link-Linked false from to fs fs' h =
    link_inodes-Linked from to (stat from fs) (stat to fs) fs fs' refl refl h
