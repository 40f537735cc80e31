-- ===== src/Config/Order.antt =====
-- load: which setting it reports.
use homesink.Base.{
  ◌≡◌, refl, Bool, true, false, List, [], ◌∷◌, Option, none, some, codes, if◌then◌else◌, inl, inr,
  Bool-cases, Option-cases,
}
use homesink.Store.Stats.{holds}
use homesink.Config.{
  Setting, env_data_dir, env_addr, env_tls, env_max_file_bytes, env_video_codec, env_workers,
  env_keep_original_video, env_update_check, env_log_level, env_tz, Loaded, good, bad, is_codec,
  default_max_file_bytes, load,
}
use homesink.Config.Address.{Host, check_writable_dir, check_listen_addr}
use homesink.Config.Parse.{
  or_default, parse_on_off, parse_bool, parse_positive_int64, parse_workers, parse_log_level,
}

-- Whether one setting is accepted, the others left aside.
abbrev pub passes : Host → Setting → Bool
passes h env_data_dir =
    check_writable_dir (h.dir (or_default (h.env (codes "HOMESINK_DATA")) (codes "/data")))
passes h env_addr = check_listen_addr h (or_default (h.env (codes "HOMESINK_ADDR")) (codes ":8443"))
passes h env_tls = holds (parse_on_off (h.env (codes "HOMESINK_TLS")) true)
passes h env_max_file_bytes =
    holds (parse_positive_int64 (h.env (codes "HOMESINK_MAX_FILE_BYTES")) default_max_file_bytes)
passes h env_video_codec =
    is_codec (or_default (h.env (codes "HOMESINK_VIDEO_CODEC")) (codes "hevc"))
passes h env_workers = holds (parse_workers h.num_cpu (h.env (codes "HOMESINK_WORKERS")))
passes h env_keep_original_video =
    holds (parse_bool (h.env (codes "HOMESINK_KEEP_ORIGINAL_VIDEOS")) false)
passes h env_update_check = holds (parse_on_off (h.env (codes "HOMESINK_UPDATE_CHECK")) true)
passes h env_log_level =
    holds (parse_log_level (or_default (h.env (codes "HOMESINK_LOG_LEVEL")) (codes "info")))
passes h env_tz = h.known_location (or_default (h.env (codes "TZ")) (codes "Europe/Berlin"))

abbrev pub settings : List Setting
settings =
    env_data_dir ∷ env_addr ∷ env_tls ∷ env_max_file_bytes ∷ env_video_codec ∷ env_workers
    ∷ env_keep_original_video ∷ env_update_check ∷ env_log_level ∷ env_tz ∷ []

abbrev pub first_failing : (Setting → Bool) → List Setting → Option Setting
first_failing p [] = none
first_failing p (s ∷ ss) = if p s then first_failing p ss else some s

abbrev pub error_of {ℓ} : {A : Type ℓ} → Loaded A → Option Setting
error_of (good a) = none
error_of (bad s) = some s

-- Load fails exactly where some setting is refused by its own check, and the setting that its error
-- names is the first of those, in the order data directory, address, TLS, file size, codec, workers,
-- originals, update check, log level, time zone.
pub load-first_failing : (h : Host) → error_of (load h) ≡ first_failing (passes h) settings
unfolding load
load-first_failing h = elim (Bool-cases (passes h env_data_dir)) [
  | inr refused ↦ rw refused refl
  | inl yes0 ↦ rw yes0 (elim (Bool-cases (passes h env_addr)) [
    | inr refused ↦ rw refused refl
    | inl yes1 ↦ rw yes1 (elim (Option-cases (parse_on_off (h.env (codes "HOMESINK_TLS")) true)) [
      | inl refused ↦ rw refused refl
      | inr (a2, yes2) ↦
          rw yes2
            (elim (Option-cases (
              parse_positive_int64 (h.env (codes "HOMESINK_MAX_FILE_BYTES"))
                default_max_file_bytes)) [
                  | inl refused ↦ rw refused refl
                  | inr (a3, yes3) ↦ rw yes3 (elim (Bool-cases (passes h env_video_codec)) [
                    | inr refused ↦ rw refused refl
                    | inl yes4 ↦
                        rw yes4
                          (elim (Option-cases
                            (parse_workers h.num_cpu (h.env (codes "HOMESINK_WORKERS")))) [
                              | inl refused ↦ rw refused refl
                              | inr (a5, yes5) ↦
                                  rw yes5
                                    (elim (Option-cases (
                                      parse_bool (h.env (codes "HOMESINK_KEEP_ORIGINAL_VIDEOS"))
                                        false)) [
                                          | inl refused ↦ rw refused refl
                                          | inr (a6, yes6) ↦
                                              rw yes6
                                                (elim (Option-cases (
                                                  parse_on_off
                                                    (h.env (codes "HOMESINK_UPDATE_CHECK")) true)) [
                                                      | inl refused ↦ rw refused refl
                                                      | inr (a7, yes7) ↦
                                                          rw yes7
                                                            (elim (Option-cases (
                                                            parse_log_level (
                                                            or_default
                                                            (h.env (codes "HOMESINK_LOG_LEVEL"))
                                                            (codes "info")))) [
                                                              | inl refused ↦ rw refused refl
                                                              | inr (a8, yes8) ↦
                                                                rw yes8
                                                                (elim (Bool-cases
                                                                (passes h env_tz)) [
                                                                  | inr refused ↦ rw refused refl
                                                                  | inl yes9 ↦ rw yes9 refl
                                                                ])
                                                            ])
                                                    ])
                                        ])
                            ])
                  ])
                ])
    ])
  ])
]
