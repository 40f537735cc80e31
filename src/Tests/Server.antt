-- ===== src/Tests/Server.antt =====
-- The theorems of the configuration and of the in-memory store at concrete inputs.
use homesink.Base.{arith, ◌≡◌, refl, List, [], ◌∷◌, none, some, true, false, codes, str_eq}
use homesink.Base.Int.{pos}
use homesink.Core.Types.{Blob, image}
use homesink.Store.{empty, missing}
use homesink.Store.Blobs as Blobs
use homesink.Config.{Config, Loaded, good, bad, load}
use homesink.Config.Address.{DirState, Host}
use homesink.Config.Order.{passes, settings, first_failing, error_of, load-first_failing}
use homesink.Config.Valid.{IsValid, load-IsValid}
use homesink.MemStore.{new_mem_store}
use homesink.MemStore.Blobs.{blob_by_hash}
use homesink.MemStore.Blobs.Refines.{
  Call, insert, state_of, media_of, run_memory, run_sqlite, run_memory-run_sqlite,
}
use homesink.Store.Devices as Devices
use homesink.Store.Devices.{Device}
use homesink.MemStore.Pairing.{device_by_id}
use homesink.MemStore.Pairing.Devices.Runs as Runs
use homesink.MemStore.Pairing.Devices.Runs.{enrol, revoke, touch, device_runs_agree}

-- No variable set.
abbrev host : Host
host = record {
  env = λ name. [];
  hostname = some (codes "nas");
  dir = λ path. DirState.writable;
  known_port = λ port. true;
  is_ip = λ host. false;
  num_cpu = 8;
  known_location = λ name. true;
}

load-first_failing_example : error_of (load host) ≡ first_failing (passes host) settings
load-first_failing_example = load-first_failing host

abbrev defaults : Config
defaults = record {
  data_dir = codes "/data";
  addr = codes ":8443";
  tls = true;
  server_name = codes "nas";
  max_file_bytes = 17179869184;
  video_codec = codes "hevc";
  workers = 4;
  keep_original_videos = false;
  update_check = true;
  log_level = homesink.Config.Parse.info;
  tz_name = codes "Europe/Berlin";
}

loads : load host ≡ good defaults
unfolding load
loads = refl

load-IsValid_example : IsValid host defaults
load-IsValid_example = load-IsValid host defaults loads

abbrev blob : Blob
blob = record {
  hash = codes "aa";
  size_bytes = 100;
  mime_type = codes "image/jpeg";
  media_type = image;
  rel_path = codes "Urlaub/2025/03/IMG_1.jpg";
  stored_hash = [];
  original_replaced_at = none;
  width = 0;
  height = 0;
  duration_ms = 0;
  created_at = 5;
}

abbrev calls : List Call
calls =
    insert blob ∷ insert blob ∷ media_of (codes "aa") 640 480 0 ∷ state_of (codes "bb") missing ∷ []

run_memory-run_sqlite_example :
    ((run_memory calls new_mem_store).0 ≡ (run_sqlite calls empty).0)
    × (blob_by_hash (codes "aa") (run_memory calls new_mem_store).1
        ≡ Blobs.blob_by_hash false (codes "aa") (run_sqlite calls empty).1)
unfolding Blobs.is_media_type Blobs.is_blob_state str_eq
run_memory-run_sqlite_example =
    run_memory-run_sqlite calls (codes "aa") (refl, (refl, (tt, (refl, tt))))

abbrev phone : Device
phone = record {
  device_id = codes "dev_1";
  name = codes "Pixel";
  token_hash = codes "aa";
  platform = codes "android";
  app_version_code = pos 0;
  created_at = 5;
  last_seen_at = 0;
  revoked_at = 0;
}

abbrev device_calls : List Runs.Call
device_calls =
    enrol phone
    ∷ touch 6 (codes "dev_1") (pos 12)
    ∷ revoke 7 (codes "dev_1")
    ∷ revoke 8 (codes "dev_2")
    ∷ []

device_runs_agree_example :
    ((Runs.run_memory device_calls new_mem_store).0 ≡ (Runs.run_sqlite device_calls empty).0)
    × (device_by_id (codes "dev_1") (Runs.run_memory device_calls new_mem_store).1
        ≡ Devices.device_by_id false (codes "dev_1") (Runs.run_sqlite device_calls empty).1)
device_runs_agree_example =
    device_runs_agree device_calls (codes "dev_1") (tt, (tt, (omega arith, (omega arith, tt))))
