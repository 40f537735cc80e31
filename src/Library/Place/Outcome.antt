-- ===== src/Library/Place/Outcome.antt =====
-- Place: what it returns, and what it leaves in the file system.
use homesink.Base.{
  ℕ, ◌≡◌, ◌≢◌, refl, ap, subst, ◌∙◌, inl, inr, Bool, true, false, Option, none, some, Str, str_eq,
  str_eq_sound, if◌then◌else◌, Bool-cases, select, All,
}
use homesink.Core.Types.{Item, Placement}
use homesink.Store.{Database, ItemRow, Result, ok, err, is_not_found, with_read}
use homesink.Store.Items.{item_by_path, at_path, found_item}
use homesink.Library.Clusters.{Segmenter}
use homesink.Library.Paths.{AbsPath, Resolved, resolve, suffixed_filename, safe_abs}
use homesink.Library.Paths.Inside.{CleanName, Below, safe_abs-Below}
use homesink.Library.Files.{Files, stat}
use homesink.Library.Install.{
  Faults, Placer, PlaceError, Placed, done, fail, invalid_hash, collision, staged_path, link_path,
  install,
}
use homesink.Library.Install.Landed.{Source, Installed, install-Installed}
use homesink.Library.Place.{
  item_found, item_at, after_second, with_name, after_first, resolve_collision, placed_item,
  after_install, after_abs, after_resolve, valid_hash, place,
}

-- No placement is recorded at a path.
abbrev pub IsFree : Str → Database → Type 0
IsFree path db = select (at_path path) db.items ≡ none

-- What a look-up says of the table.
item_found-none : (o : Option ItemRow) → item_found (found_item o) ≡ done none → o ≡ none
unfolding item_found found_item
item_found-none none h = refl
item_found-none (some r) h = cc h

pub item_at-none :
    (fault : Bool) (path : Str) (db : Database) → item_at fault path db ≡ done none → IsFree path db
unfolding item_at item_by_path with_read item_found is_not_found
item_at-none true path db h = cc h
item_at-none false path db h = item_found-none (select (at_path path) db.items) h

item_found-some : (o : Result Item) (it : Item) → item_found o ≡ done (some it) → o ≡ ok it
unfolding item_found
item_found-some (ok a) it h = cc h
item_found-some (err e) it h = elim (Bool-cases (is_not_found e)) [
  | inl t ↦ cc (rw t at h)
  | inr t ↦ cc (rw t at h)
]

pub item_at-some :
    (fault : Bool) (path : Str) (db : Database) (it : Item)
    → item_at fault path db ≡ done (some it)
    → item_by_path false path db ≡ ok it
unfolding item_at item_by_path with_read item_found is_not_found
item_at-some true path db it h = cc h
item_at-some false path db it h = item_found-some (found_item (select (at_path path) db.items)) it h

-- The path that a resolution ends at is free, or it holds the same blob.
abbrev pub Decided : Str → Database → Placed (Resolved × Option Item) → Type 0
Decided hash db (fail e) = Unit
Decided hash db (done (r, none)) = IsFree r.rel_path db
Decided hash db (done (r, some it)) = (item_by_path false r.rel_path db ≡ ok it) × (it.hash ≡ hash)

module _ (hash : Str) (db : Database) where
  held-Decided :
      (it : Item) (r : Resolved) (other : Placed (Resolved × Option Item))
      → item_by_path false r.rel_path db ≡ ok it
      → Decided hash db other
      → Decided hash db (if str_eq it.hash hash then done (r, some it) else other)
  held-Decided it r other h k = elim (Bool-cases (str_eq it.hash hash)) [
    | inl t ↦ rw t (h, str_eq_sound it.hash hash t)
    | inr t ↦ rw t k
  ]

  after_second-Decided :
      (fault : Bool) (r : Resolved) (o : Placed (Option Item))
      → item_at fault r.rel_path db ≡ o
      → Decided hash db (after_second hash r o)
  unfolding after_second
  after_second-Decided fault r (fail e) h = tt
  after_second-Decided fault r (done none) h = item_at-none fault r.rel_path db h
  after_second-Decided fault r (done (some it)) h =
      held-Decided it r (fail collision) (item_at-some fault r.rel_path db it h) tt

  after_first-Decided :
      (extra : Segmenter) (fault second : Bool) (r : Resolved) (o : Placed (Option Item))
      → item_at fault r.rel_path db ≡ o
      → Decided hash db (after_first extra second hash db r o)
  unfolding after_first
  after_first-Decided extra fault second r (fail e) h = tt
  after_first-Decided extra fault second r (done none) h = item_at-none fault r.rel_path db h
  after_first-Decided extra fault second r (done (some it)) h =
      let r' = with_name (suffixed_filename extra r.filename hash) r in
      held-Decided it r (after_second hash r' (item_at second r'.rel_path db))
        (item_at-some fault r.rel_path db it h)
        (after_second-Decided second r' (item_at second r'.rel_path db) refl)

  pub resolve_collision-Decided :
      (nfc : Str → Str) (extra : Segmenter) (faults : Faults) (pl : Placement)
      → Decided hash db (resolve_collision nfc extra faults hash pl db)
  unfolding resolve_collision
  resolve_collision-Decided nfc extra faults pl =
      let r = resolve nfc extra pl in
      after_first-Decided extra faults.first_item faults.second_item r
        (item_at faults.first_item r.rel_path db) refl

-- A placement that is returned: one recorded for the blob, with no file touched; or a new one, at a
-- path where none is recorded, below the root, where the blob's bytes now stand.
pub data Settled (p : Placer) (hash : Str) (db : Database) (fs : Files) (it : Item) (fs' : Files)
    : Type 0 where
  recorded :
      (path : Str) → item_by_path false path db ≡ ok it → fs' ≡ fs → Settled p hash db fs it fs'
  installed :
      (abs : AbsPath) (i : ℕ)
      → IsFree it.rel_path db
      → safe_abs p.root it.rel_path ≡ some abs
      → Below p.root abs
      → stat abs fs' ≡ some i
      → Source p hash db fs i
      → Settled p hash db fs it fs'

abbrev pub SettledOrFailed : Placer → Str → Database → Files → Placed Item × Files → Type 0
SettledOrFailed p hash db fs (fail e, fs') = Unit
SettledOrFailed p hash db fs (done it, fs') = (it.hash ≡ hash) × Settled p hash db fs it fs'

module _ (p : Placer) (hash : Str) (db : Database) (fs : Files) (clean : All CleanName p.root) where
  after_install-Settled :
      (fault : Bool) (it : Item) (abs : AbsPath) (r : Placed (Unit {0}) × Files)
      → it.hash ≡ hash
      → IsFree it.rel_path db
      → safe_abs p.root it.rel_path ≡ some abs
      → Installed p hash abs db fs r
      → SettledOrFailed p hash db fs (after_install fault it r)
  unfolding after_install
  after_install-Settled fault it abs (fail e, fs') h k l m = tt
  after_install-Settled true it abs (done u, fs') h k l m = tt
  after_install-Settled false it abs (done u, fs') h k l m =
      let (i, at_abs, from) = m.landed refl in
      (h, installed abs i k l (safe_abs-Below p.root abs it.rel_path clean l) at_abs from)

  after_abs-Settled :
      (faults : Faults) (it : Item) (o : Option AbsPath)
      → it.hash ≡ hash
      → IsFree it.rel_path db
      → safe_abs p.root it.rel_path ≡ o
      → SettledOrFailed p hash db fs (after_abs faults p hash it db fs o)
  after_abs-Settled faults it none h k l = tt
  after_abs-Settled faults it (some abs) h k l =
      after_install-Settled faults.random_id it abs (install faults p hash abs db fs) h k l
        (install-Installed p hash abs db fs faults)

  after_resolve-Settled :
      (faults : Faults) (pl : Placement) (d : Placed (Resolved × Option Item))
      → Decided hash db d
      → SettledOrFailed p hash db fs (after_resolve faults p hash pl db fs d)
  unfolding after_resolve
  after_resolve-Settled faults pl (fail e) h = tt
  after_resolve-Settled faults pl (done (r, some it)) h = (h.1, recorded r.rel_path h.0 refl)
  after_resolve-Settled faults pl (done (r, none)) h =
      after_abs-Settled faults (placed_item p hash pl r) (safe_abs p.root r.rel_path) refl h refl

  place-SettledOrFailed :
      (nfc : Str → Str) (extra : Segmenter) (faults : Faults) (pl : Placement)
      → SettledOrFailed p hash db fs (place nfc extra faults p hash pl db fs)
  unfolding place
  place-SettledOrFailed nfc extra faults pl = elim (Bool-cases (valid_hash hash)) [
    | inl t ↦ rw t (
        after_resolve-Settled faults pl (resolve_collision nfc extra faults hash pl db)
          (resolve_collision-Decided hash db nfc extra faults pl))
    | inr t ↦ rw t tt
  ]

-- Whatever fails on the way, under a root that is a clean path: a placement that Place returns is one
-- of the blob asked for. Either it is recorded already and no file was touched, or no placement is
-- recorded at its path, the file at that path under the root is a proper descendant of the root, and
-- it now has the bytes of the staged upload or of the blob's stored file.
pub place-Settled :
    (nfc : Str → Str) (extra : Segmenter) (faults : Faults) (p : Placer) (hash : Str)
    (pl : Placement) (db : Database) (fs : Files) (it : Item) (fs' : Files)
    → All CleanName p.root
    → place nfc extra faults p hash pl db fs ≡ (done it, fs')
    → (it.hash ≡ hash) × Settled p hash db fs it fs'
place-Settled nfc extra faults p hash pl db fs it fs' clean h =
    subst (SettledOrFailed p hash db fs) h
      (place-SettledOrFailed p hash db fs clean nfc extra faults pl)

-- Files elsewhere.
module _ (p : Placer) (hash : Str) (db : Database) (fs : Files) (q : AbsPath)
    (not_staged : staged_path p hash ≢ q) (not_link : link_path p ≢ q)
    (elsewhere : (path : Str) → safe_abs p.root path ≢ some q) where
  after_install-others :
      (fault : Bool) (it : Item) (r : Placed (Unit {0}) × Files)
      → stat q r.1 ≡ stat q fs
      → stat q (after_install fault it r).1 ≡ stat q fs
  unfolding after_install
  after_install-others fault it (fail e, fs') h = h
  after_install-others true it (done u, fs') h = h
  after_install-others false it (done u, fs') h = h

  after_abs-others :
      (faults : Faults) (it : Item) (o : Option AbsPath)
      → safe_abs p.root it.rel_path ≡ o
      → stat q (after_abs faults p hash it db fs o).1 ≡ stat q fs
  after_abs-others faults it none h = refl
  after_abs-others faults it (some abs) h =
      after_install-others faults.random_id it (install faults p hash abs db fs) (
        (install-Installed p hash abs db fs faults).others q
          (λ e. elsewhere it.rel_path (h ∙ ap some e)) not_staged not_link)

  after_resolve-others :
      (faults : Faults) (pl : Placement) (d : Placed (Resolved × Option Item))
      → stat q (after_resolve faults p hash pl db fs d).1 ≡ stat q fs
  unfolding after_resolve
  after_resolve-others faults pl (fail e) = refl
  after_resolve-others faults pl (done (r, some it)) = refl
  after_resolve-others faults pl (done (r, none)) =
      after_abs-others faults (placed_item p hash pl r) (safe_abs p.root r.rel_path) refl

  after_hash-others :
      (b : Bool) (e : PlaceError) (faults : Faults) (pl : Placement)
      (d : Placed (Resolved × Option Item))
      → stat q (if b then after_resolve faults p hash pl db fs d else (fail e, fs)).1 ≡ stat q fs
  after_hash-others true e faults pl d = after_resolve-others faults pl d
  after_hash-others false e faults pl d = refl

-- Place leaves every file alone that is neither below the library root nor one of the two files it
-- uses in the staging directory, whether it succeeds or fails and whatever names the client sent.
pub place-others :
    (nfc : Str → Str) (extra : Segmenter) (faults : Faults) (p : Placer) (hash : Str)
    (pl : Placement) (db : Database) (fs : Files) (q : AbsPath)
    → All CleanName p.root
    → (Below p.root q → ⊥)
    → staged_path p hash ≢ q
    → link_path p ≢ q
    → stat q (place nfc extra faults p hash pl db fs).1 ≡ stat q fs
unfolding place
place-others nfc extra faults p hash pl db fs q clean outside s l =
    after_hash-others p hash db fs q s l (λ path h. outside (safe_abs-Below p.root q path clean h))
      (valid_hash hash) invalid_hash faults pl (resolve_collision nfc extra faults hash pl db)
