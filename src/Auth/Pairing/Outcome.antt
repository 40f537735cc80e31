-- ===== src/Auth/Pairing/Outcome.antt =====
-- The results of Pair, path by path.
use homesink.Base.{
  ℕ, true, ◌+◌, subst, sym, ◌<◌, ◌≡◌, refl, ap, ◌∙◌, ◌⊎◌, inl, inr, not, ◌||◌, List, [], ◌∷◌, ◌++◌,
  Option, none, some, Str, str_eq, trim_space, arith, leb, select, update, Bool-cases,
}
use homesink.Core.Errors.{Error, pairing_code_invalid, pairing_code_expired, pairing_rate_limited}
use homesink.Store.{
  CodeRow, DeviceRow, Result, ok, err, wire, StoreError, already_exists, failure, is_not_found,
  is_already_exists,
}
use homesink.Store.Codes.{
  used, has_hash, is_redeemable, burn, scan_code, increment_pairing_code_attempts,
}
use homesink.Store.Devices.{Device, device_row, has_id}
use homesink.Auth.Token.{valid_code_format, generate_token, new_id}
use homesink.Auth.Limiter.{
  Config, Failures, count_of, standing, sweep, check_locked, failed, clear_failures, to_ms,
}
use homesink.Auth.Pairing.{
  PairRequest, PairResult, PairEnv, World, device_id_prefix, reject, count_code_attempt, new_device,
  mint, enrol, after_look_up, after_check, burn_and_enrol, redeem, look_up, admit, pair,
}
use homesink.Auth.Pairing.Calls.{
  insert_device-cases, mark-cases, look_up-cases, check_locked-limited,
}
use homesink.Auth.Pairing.Cause.{
  look_up_failed, burn_failed, enrol_failed, no_token_bytes, no_id_bytes, blank, malformed, unknown,
  spent, lost_race, Refusal, invalid, expired, limited, Cause, EnrolCause,
}

module _ (sha256_hex : Str → Str) (c : Config) where
  abbrev pub Step : Type 0
  Step = Result PairResult × World

  abbrev enrolled_device : PairEnv → PairRequest → List ℕ → List ℕ → Device
  enrolled_device env req tb ib =
      new_device sha256_hex c env req (generate_token tb) (new_id device_id_prefix ib)

  -- A device with a fresh token was appended, and the record of the IP dropped.
  pub record Enrolled (env : PairEnv) (req : PairRequest) (w : World) (res : PairResult)
      (w' : World) : Type 0 where
    pub tb : List ℕ
    pub ib : List ℕ
    pub token_read : env.token_bytes ≡ some tb
    pub id_read : env.id_bytes ≡ some ib
    pub token : res.token ≡ generate_token tb
    pub device_id : res.device_id ≡ new_id device_id_prefix ib
    pub paired_at : res.paired_at_ms ≡ to_ms env.enrol_now
    pub devices : w'.db.devices ≡ w.db.devices ++ device_row (enrolled_device env req tb ib) ∷ []
    pub codes : w'.db.pairing_codes ≡ w.db.pairing_codes
    pub cleared : w'.failures ≡ clear_failures req.client_ip w.failures

  abbrev EnrolPost : PairEnv → PairRequest → World → Step → Type 0
  EnrolPost env req w (ok res, w') = Enrolled env req w res w'
  EnrolPost env req w (err e, w') = (w' ≡ w) × EnrolCause env w e

  insert-Cause :
      (env : PairEnv) (w : World) (ib : List ℕ) (e : StoreError)
      → env.id_bytes ≡ some ib
      → ((e ≡ failure) × (env.enrol_fault ≡ true))
        ⊎ ((e ≡ already_exists)
            × ((r : DeviceRow) × (select (has_id (new_id device_id_prefix ib)) w.db.devices
                  ≡ some r)))
      → EnrolCause env w e
  insert-Cause env w ib e q (inl (same, down)) =
      subst (EnrolCause env w) (sym same) (enrol_failed down)
  insert-Cause env w ib e q (inr (same, taken)) = subst (EnrolCause env w) (sym same) (ib, q, taken)

  mint_post :
      (env : PairEnv) (req : PairRequest) (w : World) (tb ib : Option (List ℕ))
      → env.token_bytes ≡ tb
      → env.id_bytes ≡ ib
      → EnrolPost env req w (mint sha256_hex c env req w tb ib)
  unfolding mint
  mint_post env req w none ib p q = (refl, no_token_bytes p)
  mint_post env req w (some tb) none p q = (refl, no_id_bytes q)
  mint_post env req w (some tb) (some ib) p q =
      elim (insert_device-cases env.enrol_fault (enrolled_device env req tb ib) w.db) [
        | inl (e, why, failed_insert) ↦ rw failed_insert (refl, insert-Cause env w ib e q why)
        | inr inserted ↦ rw inserted (record {
          tb = tb;
          ib = ib;
          token_read = p;
          id_read = q;
          token = refl;
          device_id = refl;
          paired_at = refl;
          devices = refl;
          codes = refl;
          cleared = refl;
        })
      ]

  -- What a successful Pair found and did; `h` is the hash of the code.
  pub record Paired (env : PairEnv) (req : PairRequest) (w : World) (res : PairResult) (w' : World)
      : Type 0 where
    pub row : CodeRow
    pub found : select (has_hash (sha256_hex req.code)) w.db.pairing_codes ≡ some row
    pub live : to_ms env.expiry_now < row.expires_at
    pub unspent : CodeRow
    pub redeemable : select (is_redeemable (sha256_hex req.code)) w.db.pairing_codes ≡ some unspent
    pub burned :
        w'.db.pairing_codes
        ≡ update (is_redeemable (sha256_hex req.code)) (burn env.burn_now) w.db.pairing_codes
    pub tb : List ℕ
    pub ib : List ℕ
    pub token : res.token ≡ generate_token tb
    pub device_id : res.device_id ≡ new_id device_id_prefix ib
    pub paired_at : res.paired_at_ms ≡ to_ms env.enrol_now
    pub devices : w'.db.devices ≡ w.db.devices ++ device_row (enrolled_device env req tb ib) ∷ []
    pub cleared : w'.failures ≡ clear_failures req.client_ip w.failures

  -- No device on an error path, and the cause of the error.
  abbrev pub Post : PairEnv → PairRequest → World → Step → Type 0
  Post env req w (ok res, w') = Paired env req w res w'
  Post env req w (err e, w') =
      (w'.db.devices ≡ w.db.devices) × Cause (sha256_hex req.code) env req w e

  failed-Refusal :
      (h : Str) (env : PairEnv) (req : PairRequest) (w : World) (now : ℕ) (ip : Str) (want : Error)
      (m : Failures)
      → Refusal h env req w want
      → Refusal h env req w (failed c now ip want m).0
  unfolding failed
  failed-Refusal h env req w now ip want m p =
      elim (Bool-cases (leb c.max_attempts (count_of (standing ip (sweep c now m)) + 1))) [
        | inl t ↦ rw t (limited (to_ms c.lockout) refl)
        | inr t ↦ rw t p
      ]

  reject-Post :
      (env : PairEnv) (req : PairRequest) (want : Error) (w w' : World)
      → w'.db.devices ≡ w.db.devices
      → Refusal (sha256_hex req.code) env req w want
      → Post env req w (reject sha256_hex c env req.client_ip want w')
  unfolding reject
  reject-Post env req want w w' e h = (
    e,
    failed-Refusal (sha256_hex req.code) env req w env.fail_now req.client_ip want w'.failures h,
  )

  counted_devices :
      (env : PairEnv) (h : Str) (w : World)
      → (count_code_attempt sha256_hex c env h w).db.devices ≡ w.db.devices
  unfolding count_code_attempt increment_pairing_code_attempts
  counted_devices env h w = ground arith

  enrol-Cause :
      (env : PairEnv) (req : PairRequest) (w w1 : World) (e : StoreError)
      → w1.db.devices ≡ w.db.devices
      → EnrolCause env w1 e
      → Cause (sha256_hex req.code) env req w e
  enrol-Cause env req w w1 (wire e) d p = absurd p
  enrol-Cause env req w w1 failure d p = p
  enrol-Cause env req w w1 already_exists d (ib, q, (r, taken)) = (
    ib,
    q,
    (
      r,
      subst (λ (t : List DeviceRow). select (has_id (new_id device_id_prefix ib)) t ≡ some r) d
          taken,
    ),
  )

  enrolled-Post :
      (env : PairEnv) (req : PairRequest) (w w1 : World) (row unspent : CodeRow) (st : Step)
      → select (has_hash (sha256_hex req.code)) w.db.pairing_codes ≡ some row
      → to_ms env.expiry_now < row.expires_at
      → select (is_redeemable (sha256_hex req.code)) w.db.pairing_codes ≡ some unspent
      → w1.db.devices ≡ w.db.devices
      → w1.failures ≡ w.failures
      → w1.db.pairing_codes
        ≡ update (is_redeemable (sha256_hex req.code)) (burn env.burn_now) w.db.pairing_codes
      → EnrolPost env req w1 st
      → Post env req w st
  enrolled-Post env req w w1 row unspent (ok res, w') f l u d m b p = record {
    row = row;
    found = f;
    live = l;
    unspent = unspent;
    redeemable = u;
    burned = p.codes ∙ b;
    tb = p.tb;
    ib = p.ib;
    token = p.token;
    device_id = p.device_id;
    paired_at = p.paired_at;
    devices =
        p.devices
        ∙ ap (λ (t : List DeviceRow). t ++ device_row (enrolled_device env req p.tb p.ib) ∷ []) d;
    cleared = p.cleared ∙ ap (clear_failures req.client_ip) m;
  }
  enrolled-Post env req w w1 row unspent (err e, w') f l u d m b p =
      (ap (λ (t : World). t.db.devices) p.0 ∙ d, enrol-Cause env req w w1 e d p.1)

  burn-Post :
      (env : PairEnv) (req : PairRequest) (w : World) (row : CodeRow)
      → select (has_hash (sha256_hex req.code)) w.db.pairing_codes ≡ some row
      → to_ms env.expiry_now < row.expires_at
      → Post env req w (burn_and_enrol sha256_hex c env req (sha256_hex req.code) w)
  unfolding burn_and_enrol enrol is_already_exists is_not_found
  burn-Post env req w row f l =
      elim (mark-cases env.burn_fault env.burn_now (sha256_hex req.code) w.db) [
        | inr (unspent, u, e) ↦ rw e (
            enrolled-Post env req w _ row unspent _ f l u refl refl refl
              (mint_post env req _ env.token_bytes env.id_bytes refl refl))
        | inl (e, inl (known, gone), failed_mark) ↦ rw failed_mark (
            rw known
              (reject-Post env req pairing_code_invalid w w refl (invalid refl (lost_race gone))))
        | inl (e, inr (down, fault), failed_mark) ↦ rw (failed_mark, down) (refl, burn_failed fault)
      ]

  redeem-Post :
      (env : PairEnv) (req : PairRequest) (w : World) (row : CodeRow)
      → select (has_hash (sha256_hex req.code)) w.db.pairing_codes ≡ some row
      → Post env req w (redeem sha256_hex c env req (sha256_hex req.code) (scan_code row) w)
  unfolding redeem scan_code
  redeem-Post env req w row f =
      let counted = counted_devices env (sha256_hex req.code) w in
      elim (Bool-cases (used (scan_code row))) [
        | inl spent_code ↦ rw spent_code (
            reject-Post env req pairing_code_invalid w
              (count_code_attempt sha256_hex c env (sha256_hex req.code) w) counted
              (invalid refl (spent row f spent_code)))
        | inr unspent ↦ rw unspent (elim (Bool-cases (leb row.expires_at (to_ms env.expiry_now))) [
          | inl old ↦ rw old (
              reject-Post env req pairing_code_expired w
                (count_code_attempt sha256_hex c env (sha256_hex req.code) w) counted
                (expired row refl f (ground arith)))
          | inr live ↦ rw live (burn-Post env req w row f (ground arith))
        ])
      ]

  look_up-Post :
      (env : PairEnv) (req : PairRequest) (w : World)
      → Post env req w (look_up sha256_hex c env req w)
  unfolding look_up after_look_up is_not_found
  look_up-Post env req w = elim (look_up-cases env.lookup_fault (sha256_hex req.code) w.db) [
    | inl (e, inl (known, gone), failed_read) ↦
        rw failed_read (
          rw known
            (reject-Post env req pairing_code_invalid w w refl (invalid refl (unknown gone))))
    | inl (e, inr (down, fault), failed_read) ↦
        rw failed_read (rw down (refl, look_up_failed fault))
    | inr (row, f, e) ↦ rw e (redeem-Post env req w row f)
  ]

  admit-Post :
      (env : PairEnv) (req : PairRequest) (w : World)
      → Post env req w (admit sha256_hex c env req w)
  unfolding admit
  admit-Post env req w =
      elim (Bool-cases
        (str_eq (trim_space req.device_name) [] || str_eq (trim_space req.platform) [])) [
          | inl unnamed ↦ rw unnamed (refl, invalid refl (blank unnamed))
          | inr named ↦ rw named (elim (Bool-cases (not (valid_code_format req.code))) [
            | inl bad ↦ rw bad (
                reject-Post env req pairing_code_invalid w w refl
                  (invalid refl (malformed (ground arith))))
            | inr formed ↦ rw formed (look_up-Post env req w)
          ])
        ]

  after_check-Post :
      (env : PairEnv) (req : PairRequest) (w : World) (r : Option Error × Failures)
      → (r.0 ≡ none) ⊎ ((e : Error) × (r.0 ≡ some e) × ((ms : ℕ) × (e ≡ pairing_rate_limited ms)))
      → Post env req (record w { failures = r.1 }) (after_check sha256_hex c env req w r)
  unfolding after_check
  after_check-Post env req w (none, m) h = admit-Post env req (record w { failures = m })
  after_check-Post env req w (some e, m) (inl passed) = cc passed
  after_check-Post env req w (some e, m) (inr (e', same, (ms, is))) =
      let one : e ≡ e' = cc same in (refl, limited ms (one ∙ is))

  -- Whatever the clocks, the random bytes and the driver do: where Pair succeeds it found the
  -- code's row unexpired and unspent, burned it, and appended exactly one device, whose token is
  -- the one answered, with the IP's record dropped. Where it fails it added no device, and its error
  -- has its cause: the code is called invalid only where the name or platform is blank, or the code
  -- malformed, not in the table, spent, or spent by another request before the burn, and expired only
  -- where its row has expired; the request may be rate limited; and an error without a status means
  -- that a call of the driver or a read of random bytes failed, or that the new device's id is that of
  -- a row already.
  pub pair-Post :
      (env : PairEnv) (req : PairRequest) (w : World)
      → Post env req
          (record w { failures = (check_locked env.check_now req.client_ip w.failures).1 })
          (pair sha256_hex c env req w)
  unfolding pair
  pair-Post env req w =
      after_check-Post env req w (check_locked env.check_now req.client_ip w.failures)
        (check_locked-limited env.check_now req.client_ip w.failures)
