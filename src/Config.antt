-- ===== src/Config.antt =====
-- `load` is Load of backend/internal/config/config.go: the order of the settings, their defaults and errors.
pub mod Address
pub mod Parse
pub mod Valid
pub mod Order
use homesink.Base.{ℕ, ◌/◌, Bool, true, false, ◌||◌, Option, none, some, Str, codes, str_eq}
use homesink.Config.Address.{Host, check_writable_dir, check_listen_addr}
use homesink.Config.Parse.{
  LogLevel, or_default, hostname_or, parse_on_off, parse_bool, parse_positive_int64, parse_workers,
  parse_log_level,
}

-- The location is the one that the name stands for.
pub record Config : Type 0 where
  pub data_dir : Str
  pub addr : Str
  pub tls : Bool
  pub server_name : Str
  pub max_file_bytes : ℕ
  pub video_codec : Str
  pub workers : ℕ
  pub keep_original_videos : Bool
  pub update_check : Bool
  pub log_level : LogLevel
  pub tz_name : Str

-- The settings, each for its environment variable. An error is the setting that it names.
pub data Setting : Type 0 where
  env_data_dir env_addr env_tls env_max_file_bytes env_video_codec env_workers : Setting
  env_keep_original_video env_update_check env_log_level env_tz : Setting

pub data Loaded {ℓ} (A : Type ℓ) : Type ℓ where
  good : A → Loaded A
  bad : Setting → Loaded A

infixl 5 ◌>>=◌
abbrev pub ◌>>=◌ {ℓ κ} : {A : Type ℓ} {B : Type κ} → Loaded A → (A → Loaded B) → Loaded B
good a >>= f = f a
bad s >>= f = bad s

-- A parser's result, as the error of a setting.
abbrev pub setting {ℓ} : {A : Type ℓ} → Setting → Option A → Loaded A
setting s none = bad s
setting s (some a) = good a

abbrev pub require : Setting → Bool → Loaded (Unit {0})
require s true = good tt
require s false = bad s

abbrev pub is_codec : Str → Bool
is_codec s = str_eq s (codes "hevc") || str_eq s (codes "h264")

abbrev pub default_max_file_bytes : ℕ
default_max_file_bytes = 17179869184

-- Load.
unfoldable pub load : Host → Loaded Config
unfolding or_default check_listen_addr parse_on_off parse_positive_int64 parse_workers parse_bool
    parse_log_level
load h = do
  let data_dir = or_default (h.env (codes "HOMESINK_DATA")) (codes "/data")
  dir_ok ← require env_data_dir (check_writable_dir (h.dir data_dir))
  let addr = or_default (h.env (codes "HOMESINK_ADDR")) (codes ":8443")
  addr_ok ← require env_addr (check_listen_addr h addr)
  tls ← setting env_tls (parse_on_off (h.env (codes "HOMESINK_TLS")) true)
  let server_name =
      or_default (h.env (codes "HOMESINK_SERVER_NAME")) (hostname_or h.hostname (codes "homesink"))
  max_file_bytes ←
      setting env_max_file_bytes
        (parse_positive_int64 (h.env (codes "HOMESINK_MAX_FILE_BYTES")) default_max_file_bytes)
  let video_codec = or_default (h.env (codes "HOMESINK_VIDEO_CODEC")) (codes "hevc")
  codec_ok ← require env_video_codec (is_codec video_codec)
  workers ← setting env_workers (parse_workers h.num_cpu (h.env (codes "HOMESINK_WORKERS")))
  keep_original_videos ←
      setting env_keep_original_video
        (parse_bool (h.env (codes "HOMESINK_KEEP_ORIGINAL_VIDEOS")) false)
  update_check ←
      setting env_update_check (parse_on_off (h.env (codes "HOMESINK_UPDATE_CHECK")) true)
  log_level ←
      setting env_log_level
        (parse_log_level (or_default (h.env (codes "HOMESINK_LOG_LEVEL")) (codes "info")))
  let tz_name = or_default (h.env (codes "TZ")) (codes "Europe/Berlin")
  tz_ok ← require env_tz (h.known_location tz_name)
  good (record {
    data_dir = data_dir;
    addr = addr;
    tls = tls;
    server_name = server_name;
    max_file_bytes = max_file_bytes;
    video_codec = video_codec;
    workers = workers;
    keep_original_videos = keep_original_videos;
    update_check = update_check;
    log_level = log_level;
    tz_name = tz_name;
  })
