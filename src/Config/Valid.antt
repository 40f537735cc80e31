-- ===== src/Config/Valid.antt =====
-- load: the configuration that it gives.
use homesink.Base.{
  ℕ, suc, ◌≤◌, ◌≡◌, refl, subst, inl, inr, true, false, [], ◌∷◌, Option, none, some, Str, codes,
  trim_space, leb, leb→le, ◌==◌, Bool-cases, Option-cases, arith,
}
use homesink.Base.Int.{ℤ, pos, negsuc, sub_ℕ}
use homesink.Config.{Config, Loaded, good, bad, is_codec, default_max_file_bytes, load}
use homesink.Config.Address.{DirState, writable, Host, check_writable_dir, check_listen_addr}
use homesink.Config.Parse.{
  or_default, parse_on_off, parse_bool, max_int64, magnitude, up_to, parse_int, positive,
  positive_or, parse_positive_int64, resolved_workers, workers_of, workers_or, parse_workers,
  parse_log_level,
}

pub record IsValid (h : Host) (c : Config) : Type 0 where
  pub dir : h.dir c.data_dir ≡ writable
  pub addr : check_listen_addr h c.addr ≡ true
  pub file_bytes : (1 ≤ c.max_file_bytes) × (c.max_file_bytes ≤ max_int64)
  pub codec : is_codec c.video_codec ≡ true
  pub workers : 1 ≤ c.workers
  pub location : h.known_location c.tz_name ≡ true

-- ParseInt stays within 64 bits.
up_to-le : (limit : ℕ) (o : Option ℕ) (n : ℕ) → up_to limit pos o ≡ some (pos n) → n ≤ limit
up_to-le limit none n h = cc h
up_to-le limit (some m) n h = elim (Bool-cases (leb m limit)) [
  | inl t ↦ let same : m ≡ n = cc (rw t at h) in omega (arith, same, leb→le m limit t)
  | inr t ↦ cc (rw t at h)
]

up_to-negative : (limit : ℕ) (o : Option ℕ) (n : ℕ) → up_to limit (sub_ℕ 0) o ≡ some (pos n) → n ≤ 0
up_to-negative limit none n h = cc h
up_to-negative limit (some m) n h = ground arith

parse_int-le : (s : Str) (n : ℕ) → parse_int s ≡ some (pos n) → n ≤ max_int64
unfolding parse_int
parse_int-le [] n h = cc h
parse_int-le (r ∷ s) n h = elim (Bool-cases (r == 45)) [
  | inl t ↦ omega (arith, up_to-negative (suc max_int64) (magnitude s) n (rw t at h))
  | inr t ↦ elim (Bool-cases (r == 43)) [
    | inl u ↦ up_to-le max_int64 (magnitude s) n (rw (t, u) at h)
    | inr u ↦ up_to-le max_int64 (magnitude (r ∷ s)) n (rw (t, u) at h)
  ]
]

positive-range :
    (o : Option ℤ) (n : ℕ)
    → ((m : ℕ) → o ≡ some (pos m) → m ≤ max_int64)
    → positive o ≡ some n
    → (1 ≤ n) × (n ≤ max_int64)
positive-range none n b h = cc h
positive-range (some (negsuc m)) n b h = cc h
positive-range (some (pos m)) n b h = elim (Bool-cases (m == 0)) [
  | inl t ↦ cc (rw t at h)
  | inr t ↦ let same : m ≡ n = cc (rw t at h) in (ground arith, omega (arith, same, b m refl))
]

positive_or-range :
    (s : Str) (n : ℕ) → positive_or default_max_file_bytes s ≡ some n → (1 ≤ n) × (n ≤ max_int64)
positive_or-range [] n h =
    let same : default_max_file_bytes ≡ n = cc h in (omega (arith, same), omega (arith, same))
positive_or-range (r ∷ s) n h = positive-range (parse_int (r ∷ s)) n (parse_int-le (r ∷ s)) h

resolved_workers-le : (cpus n : ℕ) → 1 ≤ resolved_workers cpus n
resolved_workers-le cpus n = ground arith

workers_of-le : (cpus : ℕ) (o : Option ℤ) (n : ℕ) → workers_of cpus o ≡ some n → 1 ≤ n
workers_of-le cpus none n h = cc h
workers_of-le cpus (some (negsuc m)) n h = cc h
workers_of-le cpus (some (pos m)) n h = subst (λ (x : ℕ). 1 ≤ x) (cc h) (resolved_workers-le cpus m)

workers_or-le : (cpus : ℕ) (s : Str) (n : ℕ) → workers_or cpus s ≡ some n → 1 ≤ n
workers_or-le cpus [] n h = subst (λ (x : ℕ). 1 ≤ x) (cc h) (resolved_workers-le cpus 0)
workers_or-le cpus (r ∷ s) n h = workers_of-le cpus (parse_int (r ∷ s)) n h

check_writable_dir-writable : (s : DirState) → check_writable_dir s ≡ true → s ≡ writable
check_writable_dir-writable writable h = refl
check_writable_dir-writable DirState.missing h = cc h
check_writable_dir-writable DirState.unreadable h = cc h
check_writable_dir-writable DirState.not_directory h = cc h
check_writable_dir-writable DirState.not_writable h = cc h

parse_positive_int64-range :
    (v : Str) (n : ℕ)
    → parse_positive_int64 v default_max_file_bytes ≡ some n
    → (1 ≤ n) × (n ≤ max_int64)
unfolding parse_positive_int64
parse_positive_int64-range v n h = positive_or-range (trim_space v) n h

parse_workers-le : (cpus : ℕ) (v : Str) (n : ℕ) → parse_workers cpus v ≡ some n → 1 ≤ n
unfolding parse_workers
parse_workers-le cpus v n h = workers_or-le cpus (trim_space v) n h

abbrev ValidIfGood : Host → Loaded Config → Type 0
ValidIfGood h (good c) = IsValid h c
ValidIfGood h (bad s) = Unit

load-ValidIfGood : (h : Host) → ValidIfGood h (load h)
unfolding load
load-ValidIfGood h =
    let data_dir = or_default (h.env (codes "HOMESINK_DATA")) (codes "/data") in
    let addr = or_default (h.env (codes "HOMESINK_ADDR")) (codes ":8443") in
    let codec = or_default (h.env (codes "HOMESINK_VIDEO_CODEC")) (codes "hevc") in
    let tz = or_default (h.env (codes "TZ")) (codes "Europe/Berlin") in
    elim (Bool-cases (check_writable_dir (h.dir data_dir))) [
      | inr refused ↦ rw refused tt
      | inl yes0 ↦ rw yes0 (elim (Bool-cases (check_listen_addr h addr)) [
        | inr refused ↦ rw refused tt
        | inl yes1 ↦
            rw yes1 (elim (Option-cases (parse_on_off (h.env (codes "HOMESINK_TLS")) true)) [
              | inl refused ↦ rw refused tt
              | inr (a2, yes2) ↦
                  rw yes2
                    (elim (Option-cases (
                      parse_positive_int64 (h.env (codes "HOMESINK_MAX_FILE_BYTES"))
                        default_max_file_bytes)) [
                          | inl refused ↦ rw refused tt
                          | inr (a3, yes3) ↦ rw yes3 (elim (Bool-cases (is_codec codec)) [
                            | inr refused ↦ rw refused tt
                            | inl yes4 ↦
                                rw yes4
                                  (elim (Option-cases
                                    (parse_workers h.num_cpu (h.env (codes "HOMESINK_WORKERS")))) [
                                      | inl refused ↦ rw refused tt
                                      | inr (a5, yes5) ↦
                                          rw yes5
                                            (elim (Option-cases (
                                              parse_bool
                                                (h.env (codes "HOMESINK_KEEP_ORIGINAL_VIDEOS"))
                                                false)) [
                                                  | inl refused ↦ rw refused tt
                                                  | inr (a6, yes6) ↦
                                                      rw yes6
                                                        (elim (Option-cases (
                                                          parse_on_off
                                                            (h.env (codes "HOMESINK_UPDATE_CHECK"))
                                                            true)) [
                                                              | inl refused ↦ rw refused tt
                                                              | inr (a7, yes7) ↦
                                                                rw yes7
                                                                (elim (Option-cases (
                                                                parse_log_level (
                                                                or_default
                                                                (h.env (codes "HOMESINK_LOG_LEVEL"))
                                                                (codes "info")))) [
                                                                  | inl refused ↦ rw refused tt
                                                                  | inr (a8, yes8) ↦
                                                                    rw yes8
                                                                    (elim (Bool-cases
                                                                    (h.known_location tz)) [
                                                                      | inr refused ↦ rw refused tt
                                                                      | inl yes9 ↦ rw yes9 (record {
                                                                      dir =
                                                                      check_writable_dir-writable
                                                                      (h.dir data_dir) yes0;
                                                                      addr = yes1;
                                                                      file_bytes =
                                                                      parse_positive_int64-range
                                                                      (h.env (
                                                                      codes
                                                                      "HOMESINK_MAX_FILE_BYTES"))
                                                                      a3 yes3;
                                                                      codec = yes4;
                                                                      workers =
                                                                      parse_workers-le h.num_cpu
                                                                      (h.env
                                                                      (codes "HOMESINK_WORKERS"))
                                                                      a5 yes5;
                                                                      location = yes9;
                                                                      })
                                                                    ])
                                                                ])
                                                            ])
                                                ])
                                    ])
                          ])
                        ])
            ])
      ])
    ]

-- A configuration that Load gives is valid: the data directory is writable, the listen address is
-- accepted, the cap on a file is positive and fits int64, the codec is hevc or h264, there is at
-- least one worker, and the time zone is known.
pub load-IsValid : (h : Host) (c : Config) → load h ≡ good c → IsValid h c
load-IsValid h c e = subst (ValidIfGood h) e (load-ValidIfGood h)
