-- ===== src/Auth/Limiter/Lockout.antt =====
-- The locking of an IP, and the time it is locked.
use homesink.Base.{
  ℕ, ◌+◌, ◌-◌, ◌*◌, ◌≤◌, ◌<◌, ◌≡◌, refl, ◌∙◌, ap, ap₂, ◌⊎◌, inl, inr, List, [], ◌∷◌, Option, none,
  some, Str, arith, ltb, Bool-cases, Option-cases, length, ltb→lt, ltb-false,
}
use homesink.Auth.Limiter.Strikes.{
  state_of, same, locked_until, guess, guesses, answer, no_failures, guess-strike, guess_first,
  strike_count,
}
use homesink.Base.Table.{select-delete_self}
use homesink.Core.Errors.{Error, pairing_rate_limited}
use homesink.Auth.Limiter.{
  Failures, Entry, FailureState, Config, is_ip, standing, judge, check_locked, strike, to_ms,
}

-- The misses come no further apart than two lockouts, so that no sweep forgets them.
abbrev pub Paced : Config → ℕ → List ℕ → Type 0
Paced c last [] = Unit {0}
Paced c last (now ∷ times) = (now ≤ last + 2 * c.lockout) × Paced c now times

abbrev pub last_of : ℕ → List ℕ → ℕ
last_of now [] = now
last_of now (t ∷ times) = last_of t times

-- The record of an IP that is locked out since the miss at `now`.
abbrev pub locked_since : Config → ℕ → FailureState
locked_since c now = record {
  count = c.max_attempts;
  locked_until = some (now + c.lockout);
  last_failure = now;
}

-- One answer for each miss: `want`, and the 429 for the last.
abbrev pub answers : Config → Error → List ℕ → List Error
answers c want [] = pairing_rate_limited (to_ms c.lockout) ∷ []
answers c want (t ∷ times) = want ∷ answers c want times

Paced-strike :
    (c : Config) (now : ℕ) (s : FailureState) (times : List ℕ)
    → Paced c now times
    → Paced c (strike c now s).last_failure times
unfolding strike
Paced-strike c now s times p = p

strike_last :
    (c : Config) (now : ℕ) (s : FailureState)
    → s.count + 1 ≡ c.max_attempts
    → strike c now s ≡ locked_since c now
unfolding strike
strike_last c now s e = ground arith

strike_more :
    (c : Config) (now : ℕ) (s : FailureState)
    → s.locked_until ≡ none
    → s.count + 1 < c.max_attempts
    → (strike c now s).locked_until ≡ none
unfolding strike
strike_more c now s e h = ground arith

answer_last :
    (c : Config) (want : Error) (n : ℕ)
    → n + 1 ≡ c.max_attempts
    → answer c want n ≡ pairing_rate_limited (to_ms c.lockout)
answer_last c want n e = ground arith

answer_more : (c : Config) (want : Error) (n : ℕ) → n + 1 < c.max_attempts → answer c want n ≡ want
answer_more c want n h = ground arith

abbrev pub LockedBy : Config → Str → Error → ℕ → List ℕ → Failures → Type 0
LockedBy c ip want now times m =
    ((guesses c ip want (now ∷ times) m).0 ≡ answers c want times)
    × (state_of ip (guesses c ip want (now ∷ times) m).1
        ≡ some (locked_since c (last_of now times)))

guesses_strikes :
    (c : Config) (ip : Str) (want : Error) (now : ℕ) (times : List ℕ) (m : Failures)
    (s : FailureState)
    → state_of ip m ≡ some s
    → s.locked_until ≡ none
    → Paced c s.last_failure (now ∷ times)
    → s.count + length (now ∷ times) ≡ c.max_attempts
    → LockedBy c ip want now times m
unfolding guesses
guesses_strikes c ip want now [] m s h k p n =
    let (said, state) = guess-strike c now ip want m s h k p.0 in
    (
      ap (λ e. e ∷ []) (said ∙ answer_last c want s.count (omega arith)),
      state ∙ ap some (strike_last c now s (omega arith)),
    )
guesses_strikes c ip want now (t ∷ times) m s h k p n =
    let (said, state) = guess-strike c now ip want m s h k p.0 in
    let (rest, final) =
      guesses_strikes c ip want t times (guess c ip want now m).1 (strike c now s) state
        (strike_more c now s k (omega arith)) (Paced-strike c now s (t ∷ times) p.1)
        (strike_count c now s (length (t ∷ times)) (omega arith)) in
    (ap₂ ◌∷◌ (said ∙ answer_more c want s.count (omega arith)) rest, final)

-- An IP without a record whose `max_attempts` misses come no further apart than two lockouts is
-- told of each miss but the last, then 429, and is locked out for one lockout from the last miss.
pub guesses_lock :
    (c : Config) (ip : Str) (want : Error) (now : ℕ) (times : List ℕ) (m : Failures)
    → standing ip m ≡ none
    → Paced c now times
    → length (now ∷ times) ≡ c.max_attempts
    → LockedBy c ip want now times m
unfolding guesses
guesses_lock c ip want now [] m h p n =
    let (said, state) = guess_first c now ip want m h in
    (
      ap (λ e. e ∷ []) (said ∙ answer_last c want 0 (omega arith)),
      state ∙ ap some (strike_last c now no_failures (omega arith)),
    )
guesses_lock c ip want now (t ∷ times) m h p n =
    let (said, state) = guess_first c now ip want m h in
    let (rest, final) =
      guesses_strikes c ip want t times (guess c ip want now m).1 (strike c now no_failures) state
        (strike_more c now no_failures refl (omega arith))
        (Paced-strike c now no_failures (t ∷ times) p)
        (strike_count c now no_failures (length (t ∷ times)) (omega arith)) in
    (ap₂ ◌∷◌ (said ∙ answer_more c want 0 (omega arith)) rest, final)

-- The two phases of a lock that ends at `until`, seen by checkLocked at `now`.
abbrev pub Served : ℕ → ℕ → Str → Failures → Option Error × Failures → Type 0
Served now until ip m r =
    ((now < until) × (r ≡ (some (pairing_rate_limited (to_ms (until - now))), m)))
    ⊎ ((until ≤ now) × (r.0 ≡ none) × (standing ip r.1 ≡ none))

judge_locked :
    (now until : ℕ) (ip : Str) (x : Entry) (m : Failures)
    → x.state.locked_until ≡ some until
    → Served now until ip m (judge now ip (some x) m)
unfolding judge standing
judge_locked now until ip x m e = rw e (elim (Bool-cases (ltb now until)) [
  | inl early ↦ inl (ltb→lt now until early, rw early)
  | inr late ↦
      inr (ltb-false now until late, rw late refl, rw late (select-delete_self (is_ip ip) m))
])

-- While an IP is locked out, checkLocked answers 429 with the milliseconds that remain and keeps
-- the map; from the end of the lock on it passes the IP and drops its record.
pub check_locked-locked :
    (now until : ℕ) (ip : Str) (m : Failures) (s : FailureState)
    → state_of ip m ≡ some s
    → s.locked_until ≡ some until
    → Served now until ip m (check_locked now ip m)
unfolding check_locked
check_locked-locked now until ip m s h k = elim (Option-cases (standing ip m)) [
  | inl e ↦ cc (rw e at h)
  | inr (x, e) ↦
      let lock : x.state.locked_until ≡ some until = ap locked_until (same (rw e at h)) ∙ k in
      rw e (judge_locked now until ip x m lock)
]
