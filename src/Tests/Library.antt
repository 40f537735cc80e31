-- ===== src/Tests/Library.antt =====
-- The theorems of the library at a concrete placement.
use homesink.Base.{
  ◌≡◌, ◌≢◌, ◌≤◌, refl, sym, ap, ◌==◌, ◌∙◌, [], ◌∷◌, ◌++◌, none, some, true, false, Str, codes,
  select, All, str_eq, len, take, arith,
}
use homesink.Base.Texts.{starts}
use homesink.Base.Int.{pos}
use homesink.Core.Types.{Item, image, Placement}
use homesink.Store.{
  Database, ItemRow, BlobRow, empty, stored, Result, ok, with_read, with_tx, commit,
}
use homesink.Store.Items.{
  item_by_path, found_item, insert_item, insert_item_tx, after_blob, insert_row, item_row,
  scan_item,
}
use homesink.Store.Items
use homesink.Store.Stats.{size_of}
use homesink.Library.Clusters.{Segmenter, truncate_graphemes, truncate_grapheme_bytes, bytes_loop}
use homesink.Library.Sanitize.{sanitize_album, sanitize_filename}
use homesink.Library.Sanitize.Safe.{Named, sanitize_album-Named}
use homesink.Library.Sanitize.Filename.{Component, sanitize_filename-Component}
use homesink.Library.Calendar.Inverse.{IsMonthAt, year_month-IsMonthAt}
use homesink.Library.Calendar.{year_month}
use homesink.Library.Paths.{
  AbsPath, Resolved, resolve, build_rel_path, safe_abs, suffixed_filename, join_path, split_slash,
  clean_steps, clean_step, rel,
}
use homesink.Library.Paths.Inside.{CleanName, Below, safe_abs-Below}
use homesink.Library.Paths.Accepted.{components, safe_abs-build_rel_path}
use homesink.Library.Files.{File, Files, stat}
use homesink.Library.Install.{Placer, Placed, done, staged_path}
use homesink.Library.Place.{valid_hash, place, placed_item}
use homesink.Library.Place.Outcome.{IsFree, Settled, place-Settled, place-others}
use homesink.Library.Place.Recorded.{no_faults, from_device, place-insert_item-place}
use homesink.Library.Place.Suffix.{suffixed_filename-apart}
use homesink.Library.Place.Success.{Landed, place-Landed}

abbrev same : Str → Str
same s = s

-- Every rune a cluster of its own.
abbrev single : Segmenter
single r s state = (0, none)

sanitize_album-Named_example : Named (sanitize_album same single (codes "../CON"))
sanitize_album-Named_example = sanitize_album-Named same single (codes "../CON")

sanitize_filename-Component_example :
    Component (sanitize_filename same single (codes "../../etc/passwd"))
    × (sanitize_filename same single (codes "../../etc/passwd") ≢ [])
sanitize_filename-Component_example =
    sanitize_filename-Component same single (codes "../../etc/passwd")

year_month-IsMonthAt_example :
    IsMonthAt (pos 1742000000000) (pos 60) (year_month (pos 1742000000000) (pos 60))
year_month-IsMonthAt_example = year_month-IsMonthAt (pos 1742000000000) (pos 60)

abbrev root : AbsPath
root = codes "data" ∷ []

data-CleanName : All CleanName root
data-CleanName =
    (record { some_text = λ e. cc e; not_self = λ e. cc e; not_parent = λ e. cc e; one = refl }, tt)

album_path : safe_abs root (codes "a/../b") ≡ some (codes "data" ∷ codes "b" ∷ [])
unfolding safe_abs str_eq
album_path = refl

safe_abs-Below_example : Below root (codes "data" ∷ codes "b" ∷ [])
safe_abs-Below_example =
    safe_abs-Below root (codes "data" ∷ codes "b" ∷ []) (codes "a/../b") data-CleanName album_path

abbrev placement : Placement
placement = record {
  album = codes "Urlaub";
  captured_at_ms = pos 1742000000000;
  captured_offset_min = pos 60;
  filename = codes "IMG_1.jpg";
}

resolved_filename : (resolve same single placement).filename ≡ codes "IMG_1.jpg"
unfolding resolve sanitize_filename len homesink.Library.Sanitize.suffix_reserved
resolved_filename = refl

resolved_name : (resolve same single placement).filename ≢ codes "."
resolved_name e = cc (sym resolved_filename ∙ e)

safe_abs-build_rel_path_example :
    (let r = resolve same single placement in
      safe_abs root (build_rel_path same single placement)
      ≡ some (root ++ components r.album r.year r.month r.filename))
safe_abs-build_rel_path_example = safe_abs-build_rel_path same single root placement resolved_name

abbrev hash : Str
hash = codes "aaaaaaaaaaaaaaaaaaaaaaaaaaaaaaaaaaaaaaaaaaaaaaaaaaaaaaaaaaaaaaaa"

abbrev other_hash : Str
other_hash = codes "bbbbbbbbbbbbbbbbbbbbbbbbbbbbbbbbbbbbbbbbbbbbbbbbbbbbbbbbbbbbbbbb"

hash_valid : valid_hash hash ≡ true
unfolding valid_hash
hash_valid = refl

other_hash_valid : valid_hash other_hash ≡ true
unfolding valid_hash
other_hash_valid = refl

abbrev placer : Placer
placer = record {
  root = root;
  staging = codes "data" ∷ codes "staging" ∷ [];
  now = 5;
  item_id = codes "itm_1";
  link_suffix = codes "ff";
}

abbrev upload : File
upload = record { path = staged_path placer hash; inode = 7 }

abbrev blob_row : BlobRow
blob_row = record {
  hash = hash;
  size_bytes = 100;
  mime_type = codes "image/jpeg";
  media_type = image;
  rel_path = codes "Urlaub/2025/03/IMG_1.jpg";
  state = stored;
  stored_hash = none;
  original_replaced_at = none;
  width = none;
  height = none;
  duration_ms = none;
  created_at = 5;
}

abbrev one_blob : Database
one_blob = record empty { blobs = blob_row ∷ [] }

abbrev new_item : Item
new_item = placed_item placer hash placement (resolve same single placement)

abbrev placed : Placed Item × Files
placed = place same single no_faults placer hash placement one_blob (upload ∷ [])

placed_new : placed ≡ (done new_item, placed.1)
unfolding place resolve with_read found_item select homesink.Store.is_not_found
    homesink.Library.Paths.join_rel sanitize_album homesink.Library.Clusters.graphemes_loop
    sanitize_filename len
placed_new = refl

place-Settled_example :
    (new_item.hash ≡ hash) × Settled placer hash one_blob (upload ∷ []) new_item placed.1
place-Settled_example =
    place-Settled same single no_faults placer hash placement one_blob (upload ∷ []) new_item
      placed.1 data-CleanName placed_new

outside : Below root (codes "etc" ∷ []) → ⊥
outside b = cc b.path

place-others_example :
    stat
      (codes "etc" ∷ [])
      (place same single no_faults placer hash placement one_blob (upload ∷ [])).1
    ≡ stat (codes "etc" ∷ []) (upload ∷ [])
place-others_example =
    place-others same single no_faults placer hash placement one_blob (upload ∷ [])
      (codes "etc" ∷ []) data-CleanName outside (λ e. cc e) (λ e. cc e)

free : IsFree (resolve same single placement).rel_path one_blob
unfolding select
free = refl

upload_staged : stat (staged_path placer hash) (upload ∷ []) ≡ some 7
unfolding stat
upload_staged = refl

place-Landed_example :
    (let r = resolve same single placement in
      Landed new_item
        (root ++ components r.album r.year r.month r.filename)
        7
        (place same single no_faults placer hash placement one_blob (upload ∷ [])))
place-Landed_example =
    place-Landed same single placer hash placement one_blob (upload ∷ []) 7 hash_valid free
      resolved_name upload_staged

abbrev first_placed : Placed Item × Files
first_placed = place same single no_faults placer hash placement empty (upload ∷ [])

first_new : first_placed ≡ (done new_item, first_placed.1)
unfolding place resolve with_read found_item select homesink.Store.is_not_found
    homesink.Library.Paths.join_rel sanitize_album homesink.Library.Clusters.graphemes_loop
    sanitize_filename len
first_new = refl

new_item-IsFree : IsFree new_item.rel_path empty
unfolding select
new_item-IsFree = refl

abbrev inserted : Result (Unit {0}) × Database
inserted = insert_item false (from_device [] new_item) one_blob

item_inserted : inserted ≡ (ok tt, inserted.1)
unfolding insert_item with_tx insert_item_tx after_blob size_of select str_eq Items.after_insert
    insert_row item_row resolve homesink.Store.null_string
item_inserted = refl

place-insert_item-place_example :
    place same single no_faults placer hash placement inserted.1 []
    ≡ (done (from_device [] new_item), [])
place-insert_item-place_example =
    place-insert_item-place same single no_faults false placer placer hash [] placement empty
      one_blob inserted.1 (upload ∷ []) first_placed.1 [] new_item first_new new_item-IsFree refl
      item_inserted

first_differs : true ≢ false
first_differs e = cc e

prefixes : take 8 hash ≢ take 8 other_hash
prefixes e = absurd (first_differs (ap (λ (s : Str). starts (λ r. r == 97) s) e))

short : len (codes "IMG_1.jpg") ≤ 235
unfolding len
short = omega arith

suffixed_filename-apart_example :
    suffixed_filename single (codes "IMG_1.jpg") hash
    ≢ suffixed_filename single (codes "IMG_1.jpg") other_hash
suffixed_filename-apart_example =
    suffixed_filename-apart single (codes "IMG_1.jpg") hash other_hash hash_valid other_hash_valid
      short prefixes
