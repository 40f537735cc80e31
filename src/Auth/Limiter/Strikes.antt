-- ===== src/Auth/Limiter/Strikes.antt =====
-- What one failure does to the record of its IP.
use homesink.Base.{
  ℕ, ◌+◌, ◌*◌, ◌≤◌, ◌≡◌, refl, ◌∙◌, ap, inl, inr, false, List, [], ◌∷◌, Option, none, some, Str,
  str_eq_sound, str_eq_refl, arith, leb, if◌then◌else◌, select, delete, Option-cases,
}
use mathlib.Core.Option
use homesink.Base.Table.{select-update, select-append, select_sound}
use homesink.Core.Errors.{Error, pairing_rate_limited}
use homesink.Auth.Limiter.{
  Failures, Entry, FailureState, Config, is_ip, standing, judge, check_locked, is_stale, sweep,
  strike, strike_entry, recorded, failed, to_ms,
}

-- The record of an IP: its count, its lock and its last failure.
abbrev pub state_of : Str → Failures → Option FailureState
state_of ip m = Option.map (λ (e : Entry). e.state) (standing ip m)

select-is_ip : (ip : Str) (m : Failures) {e : Entry} → standing ip m ≡ some e → e.ip ≡ ip
unfolding standing
select-is_ip ip m {e} h = str_eq_sound e.ip ip (select_sound (is_ip ip) m h)

-- A record that is not stale survives the sweep.
pub standing-sweep :
    (c : Config) (now : ℕ) (ip : Str) (m : Failures) {e : Entry}
    → standing ip m ≡ some e
    → is_stale c now e ≡ false
    → standing ip (sweep c now m) ≡ some e
unfolding standing sweep select delete
standing-sweep c now ip [] h k = cc
standing-sweep c now ip (x ∷ m) {e} h k = ground (arith, standing-sweep c now ip m {e = e})

pub standing-sweep-none :
    (c : Config) (now : ℕ) (ip : Str) (m : Failures)
    → standing ip m ≡ none
    → standing ip (sweep c now m) ≡ none
unfolding standing sweep select delete
standing-sweep-none c now ip [] h = refl
standing-sweep-none c now ip (x ∷ m) h = ground (arith, standing-sweep-none c now ip m)

pub same : {a b : FailureState} → some a ≡ some b → a ≡ b
same e = cc

abbrev pub locked_until : FailureState → Option ℕ
locked_until s = s.locked_until

-- What `failed` leaves as the record of the IP.
recorded_self :
    (c : Config) (now : ℕ) (ip : Str) (m : Failures) (s : FailureState)
    → state_of ip m ≡ some s
    → state_of ip (recorded c now ip (standing ip m) m) ≡ some (strike c now s)
unfolding standing recorded
recorded_self c now ip m s h = elim (Option-cases (select (is_ip ip) m)) [
  | inl e ↦ cc (rw e at h)
  | inr (x, e) ↦ rw e (
      rw (select-update (is_ip ip) (strike_entry c now) m (λ y t. t), e)
        (ap (λ t. some (strike c now t)) (same (rw e at h))))
]

recorded_new :
    (c : Config) (now : ℕ) (ip : Str) (m : Failures)
    → standing ip m ≡ none
    → state_of ip (recorded c now ip (standing ip m) m)
      ≡ some (strike c now (record { count = 0; locked_until = none; last_failure = 0 }))
unfolding standing recorded
recorded_new c now ip m h = rw h (rw (select-append (is_ip ip) m _ h, str_eq_refl ip))

-- checkLocked passes an IP whose record has no lock, and leaves the map.
check_unlocked :
    (now : ℕ) (ip : Str) (m : Failures) (s : FailureState)
    → state_of ip m ≡ some s
    → s.locked_until ≡ none
    → check_locked now ip m ≡ (none, m)
unfolding check_locked judge
check_unlocked now ip m s h k = elim (Option-cases (standing ip m)) [
  | inl e ↦ cc (rw e at h)
  | inr (x, e) ↦ rw e (unlocked x (rw e at h))
]
  where
    unlocked : (x : Entry) → some x.state ≡ some s → judge now ip (some x) m ≡ (none, m)
    unlocked x e =
        let open_now : x.state.locked_until ≡ none = ap locked_until (same e) ∙ k in rw open_now

pub strike_count :
    (c : Config) (now : ℕ) (s : FailureState) (n : ℕ)
    → s.count + 1 + n ≡ c.max_attempts
    → (strike c now s).count + n ≡ c.max_attempts
unfolding strike
strike_count c now s n e = e

-- One guess that misses: checkLocked, and `failed` if it passes.
after_check : Config → Str → Error → ℕ → Option Error × Failures → Error × Failures
after_check c ip want now (some e, m) = (e, m)
after_check c ip want now (none, m) = failed c now ip want m

unfoldable pub guess : Config → Str → Error → ℕ → Failures → Error × Failures
unfolding after_check
guess c ip want now m = after_check c ip want now (check_locked now ip m)

unfoldable pub guesses : Config → Str → Error → List ℕ → Failures → List Error × Failures
guesses c ip want [] m = ([], m)
guesses c ip want (now ∷ times) m =
    let first = guess c ip want now m in
    let rest = guesses c ip want times first.1 in (first.0 ∷ rest.0, rest.1)

guess_passes :
    (c : Config) (now : ℕ) (ip : Str) (want : Error) (m : Failures)
    → check_locked now ip m ≡ (none, m)
    → guess c ip want now m ≡ failed c now ip want m
unfolding guess
guess_passes c now ip want m e = ap (after_check c ip want now) e

-- The answer to a miss, by the misses so far.
abbrev pub answer : Config → Error → ℕ → Error
answer c want count =
    if leb c.max_attempts (count + 1) then pairing_rate_limited (to_ms c.lockout) else want

failed-answer :
    (c : Config) (now : ℕ) (ip : Str) (want : Error) (m : Failures) (s : FailureState)
    → state_of ip m ≡ some s
    → now ≤ s.last_failure + 2 * c.lockout
    → ((failed c now ip want m).0 ≡ answer c want s.count)
      × (state_of ip (failed c now ip want m).1 ≡ some (strike c now s))
unfolding failed
failed-answer c now ip want m s h soon = elim (Option-cases (standing ip m)) [
  | inl e ↦ cc (rw e at h)
  | inr (x, e) ↦
      let known : x.state ≡ s = same (rw e at h) in
      let recent : is_stale c now x ≡ false = fresh_entry x known in
      let kept : standing ip (sweep c now m) ≡ some x = standing-sweep c now ip m e recent in
      (
        rw kept (ap (λ (t : FailureState). answer c want t.count) known),
        recorded_self c now ip (sweep c now m) s (rw kept (ap some known)),
      )
]
  where
    fresh_entry : (x : Entry) → x.state ≡ s → is_stale c now x ≡ false
    fresh_entry x e =
        let last = ap (λ (t : FailureState). t.last_failure) e in rw last (ground arith)

-- A miss of an IP that has a record without a lock.
pub guess-strike :
    (c : Config) (now : ℕ) (ip : Str) (want : Error) (m : Failures) (s : FailureState)
    → state_of ip m ≡ some s
    → s.locked_until ≡ none
    → now ≤ s.last_failure + 2 * c.lockout
    → ((guess c ip want now m).0 ≡ answer c want s.count)
      × (state_of ip (guess c ip want now m).1 ≡ some (strike c now s))
guess-strike c now ip want m s h k soon =
    rw (guess_passes c now ip want m (check_unlocked now ip m s h k))
      (failed-answer c now ip want m s h soon)

abbrev pub no_failures : FailureState
no_failures = record { count = 0; locked_until = none; last_failure = 0 }

check_new :
    (now : ℕ) (ip : Str) (m : Failures) → standing ip m ≡ none → check_locked now ip m ≡ (none, m)
unfolding check_locked judge
check_new now ip m h = rw h

failed_first :
    (c : Config) (now : ℕ) (ip : Str) (want : Error) (m : Failures)
    → standing ip m ≡ none
    → ((failed c now ip want m).0 ≡ answer c want 0)
      × (state_of ip (failed c now ip want m).1 ≡ some (strike c now no_failures))
unfolding failed
failed_first c now ip want m h =
    let swept : standing ip (sweep c now m) ≡ none = standing-sweep-none c now ip m h in
    (rw swept refl, recorded_new c now ip (sweep c now m) swept)

-- The first miss of an IP that has no record.
pub guess_first :
    (c : Config) (now : ℕ) (ip : Str) (want : Error) (m : Failures)
    → standing ip m ≡ none
    → ((guess c ip want now m).0 ≡ answer c want 0)
      × (state_of ip (guess c ip want now m).1 ≡ some (strike c now no_failures))
guess_first c now ip want m h =
    rw (guess_passes c now ip want m (check_new now ip m h)) (failed_first c now ip want m h)
