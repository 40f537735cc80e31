-- ===== src/Library/Files.antt =====
-- The file system behind backend/internal/library/place.go: the files below the two roots, each with
-- its inode. Directories are implicit. A call fails where its first argument says so, and then
-- changes nothing.
pub mod Stat
use homesink.Base.{
  ℕ, Bool, true, false, not, ◌&&◌, List, [], ◌∷◌, ◌++◌, Option, none, some, str_eq, keep, ◌==◌,
  if◌then◌else◌,
}
use homesink.Library.Paths.{AbsPath}

pub record File : Type 0 where
  pub path : AbsPath
  pub inode : ℕ

abbrev pub Files : Type 0
Files = List File

unfoldable pub path_eq : AbsPath → AbsPath → Bool
unfolding str_eq
path_eq [] [] = true
path_eq [] (c ∷ cs) = false
path_eq (c ∷ cs) [] = false
path_eq (c ∷ cs) (d ∷ ds) = str_eq c d && path_eq cs ds

-- os.Stat, as the inode of the file at a path.
unfoldable pub stat : AbsPath → Files → Option ℕ
unfolding path_eq
stat path [] = none
stat path (f ∷ fs) = if path_eq f.path path then some f.inode else stat path fs

unfoldable pub remove_file : AbsPath → Files → Files
unfolding path_eq
remove_file path fs = keep (λ f. not (path_eq f.path path)) fs

-- What rename(2) does with the inodes of the two names: nothing where they are one file.
abbrev pub move : AbsPath → AbsPath → ℕ → Files → Files
move from to i fs = remove_file to (remove_file from fs) ++ record { path = to; inode = i } ∷ []

abbrev pub rename_inodes : AbsPath → AbsPath → ℕ → Option ℕ → Files → Files
rename_inodes from to i none fs = move from to i fs
rename_inodes from to i (some j) fs = if i == j then fs else move from to i fs

abbrev pub rename_from : AbsPath → AbsPath → Option ℕ → Files → Option Files
rename_from from to none fs = none
rename_from from to (some i) fs = some (rename_inodes from to i (stat to fs) fs)

-- os.Rename and os.Link, none where they fail.
unfoldable pub rename : Bool → AbsPath → AbsPath → Files → Option Files
unfolding stat remove_file
rename true from to fs = none
rename false from to fs = rename_from from to (stat from fs) fs

abbrev pub link_inodes : AbsPath → Option ℕ → Option ℕ → Files → Option Files
link_inodes to (some i) none fs = some (fs ++ record { path = to; inode = i } ∷ [])
link_inodes to source target fs = none

unfoldable pub link : Bool → AbsPath → AbsPath → Files → Option Files
unfolding stat
link true from to fs = none
link false from to fs = link_inodes to (stat from fs) (stat to fs) fs
