-- ===== src/Tests/Store.antt =====
-- The theorems of the store at concrete databases.
use homesink.Base.{
  ◌≤◌, ◌≡◌, refl, false, [], ◌∷◌, none, some, Str, codes, str_eq, arith, select, List, ◌+◌,
}
use homesink.Base.Int.{pos}
use homesink.Core.Types.{Blob, Item, image}
use homesink.Store.{Database, CodeRow, JobRow, empty, thumbnail, queued}
use homesink.Store.Codes.{is_redeemable}
use homesink.Store.Codes.SingleUse.{wins, race, wins-le-one, wins-race}
use homesink.Store.Jobs.Ids.{claims, completes, IsWellFormed}
use homesink.Store.Jobs.Claim.{claim_job-IsNext, Claims}
use homesink.Store.Jobs.Trace.{times_taken, attempts_of, attempts_of-run}
use homesink.Store.Jobs.Trace as Trace
use homesink.Store.Jobs.Exclusive.{times_taken-le-one}
use homesink.Store.Stats.{Key, album_stat, derive_album_stats}
use homesink.Store.Stats.Groups.{stat_among}
use homesink.Store.Devices.{Device}
use homesink.Store.Stats.Derived.{IsConsistent}
use homesink.Store.Items.Consistent.{
  Call, new_device, new_blob, new_item, drop_item, run, step, step-IsConsistent, run-IsConsistent,
  empty-IsConsistent, album_stat-derived,
}

abbrev code : Str
code = codes "123456"

abbrev live_row : CodeRow
live_row = record { code_hash = code; expires_at = 1000; used_at = none; attempts = 0 }

abbrev one_code : Database
one_code = record empty { pairing_codes = live_row ∷ [] }

code_is_live : select (is_redeemable code) one_code.pairing_codes ≡ some live_row
unfolding select str_eq
code_is_live = refl

wins-le-one_example : wins code (race code (1 ∷ 2 ∷ [])) one_code ≤ 1
wins-le-one_example = wins-le-one code (race code (1 ∷ 2 ∷ [])) one_code (tt, (tt, tt))

wins-race_example : wins code (race code (1 ∷ 2 ∷ [])) one_code ≡ 1
wins-race_example = wins-race code 1 (2 ∷ []) one_code {r = live_row} code_is_live

abbrev job : JobRow
job = record {
  job_id = 1;
  kind = thumbnail;
  payload = codes "{}";
  priority = 50;
  state = queued;
  attempts = 0;
  next_attempt_at = 0;
  last_error = none;
  created_at = 0;
  updated_at = 0;
}

abbrev one_job : Database
one_job = record empty { jobs = job ∷ []; next_job_id = 2 }

one_job-IsWellFormed : IsWellFormed one_job
one_job-IsWellFormed = record { distinct = (tt, tt); below = (omega arith, tt) }

times_taken-le-one_example :
    times_taken 1 (claims false 5 ∷ completes false 6 1 ∷ claims false 7 ∷ []) one_job ≤ 1
times_taken-le-one_example =
    times_taken-le-one 1 (claims false 5 ∷ completes false 6 1 ∷ claims false 7 ∷ []) one_job
      one_job-IsWellFormed (tt, (tt, (tt, tt)))

claim_job-IsNext_example : Claims 5 one_job
claim_job-IsNext_example = claim_job-IsNext 5 one_job one_job-IsWellFormed

attempts_of-run_example :
    attempts_of 1 (Trace.run (claims false 5 ∷ []) one_job)
    ≡ attempts_of 1 one_job + times_taken 1 (claims false 5 ∷ []) one_job
attempts_of-run_example = attempts_of-run 1 (claims false 5 ∷ []) one_job one_job-IsWellFormed

abbrev photo : Blob
photo = record {
  hash = codes "ab";
  size_bytes = 10;
  mime_type = codes "image/jpeg";
  media_type = image;
  rel_path = codes "Camera/2024/06/a.jpg";
  stored_hash = [];
  original_replaced_at = none;
  width = 0;
  height = 0;
  duration_ms = 0;
  created_at = 1;
}

abbrev shot : Item
shot = record {
  item_id = codes "itm_1";
  hash = codes "ab";
  album = codes "Camera";
  year = pos 2024;
  month = 6;
  filename = codes "a.jpg";
  rel_path = codes "Camera/2024/06/a.jpg";
  captured_at_ms = pos 5;
  captured_offset_min = pos 0;
  device_id = [];
  created_at = 1;
}

abbrev camera : Key
camera = record { album = codes "Camera"; year = pos 2024; month = 6 }

abbrev placed : Database
placed = run (new_blob false photo ∷ new_item false shot ∷ []) empty

step-IsConsistent_example : IsConsistent (step (drop_item false (codes "itm_1")) placed)
step-IsConsistent_example =
    step-IsConsistent (drop_item false (codes "itm_1")) placed
      (run-IsConsistent (new_blob false photo ∷ new_item false shot ∷ []) empty empty-IsConsistent)

abbrev phone : Device
phone = record {
  device_id = codes "dev_1";
  name = codes "Pixel";
  token_hash = codes "aa";
  platform = codes "android";
  app_version_code = pos 0;
  created_at = 5;
  last_seen_at = 0;
  revoked_at = 0;
}

abbrev of_device : List Call
of_device =
    new_device false phone
    ∷ new_blob false photo
    ∷ new_item false (record shot { device_id = codes "dev_1" })
    ∷ []

album_stat-derived_example :
    album_stat false camera (run of_device empty)
    ≡ stat_among camera (derive_album_stats false (run of_device empty))
album_stat-derived_example = album_stat-derived of_device camera
