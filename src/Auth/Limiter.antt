-- ===== src/Auth/Limiter.antt =====
-- The rate limiter of backend/internal/auth/pairing.go: the map from client IP to its failures.
-- A time is nanoseconds since 1970; `none` is the zero time.Time.
pub mod Strikes
pub mod Lockout
pub mod Sweep
use homesink.Base.{
  ℕ, ◌+◌, ◌-◌, ◌*◌, ◌/◌, Bool, true, false, ◌&&◌, List, [], ◌∷◌, ◌++◌, Option, none, some, Str,
  str_eq, ltb, leb, ◌==◌, if◌then◌else◌, select, update, delete,
}
use homesink.Core.Errors.{Error, pairing_rate_limited}

pub record FailureState : Type 0 where
  pub count : ℕ
  pub locked_until : Option ℕ
  pub last_failure : ℕ

pub record Entry : Type 0 where
  pub ip : Str
  pub state : FailureState

-- What NewPairer keeps of PairerOptions; durations are in nanoseconds.
pub record Config : Type 0 where
  pub code_ttl : ℕ
  pub max_attempts : ℕ
  pub lockout : ℕ

abbrev pub Failures : Type 0
Failures = List Entry

-- NewPairer, where a value that is not positive stands for the default.
abbrev pub default_code_ttl : ℕ
default_code_ttl = 600_000_000_000

abbrev pub default_max_attempts : ℕ
default_max_attempts = 5

abbrev pub default_lockout : ℕ
default_lockout = 900_000_000_000

abbrev or_default : ℕ → ℕ → ℕ
or_default v d = if v == 0 then d else v

unfoldable pub new_config : ℕ → ℕ → ℕ → Config
new_config code_ttl max_attempts lockout = record {
  code_ttl = or_default code_ttl default_code_ttl;
  max_attempts = or_default max_attempts default_max_attempts;
  lockout = or_default lockout default_lockout;
}

-- Duration.Milliseconds and Time.UnixMilli.
abbrev pub to_ms : ℕ → ℕ
to_ms t = t / 1_000_000

abbrev pub is_ip : Str → Entry → Bool
is_ip ip e = str_eq e.ip ip

-- failures[ip].
unfoldable pub standing : Str → Failures → Option Entry
unfolding select
standing ip m = select (is_ip ip) m

-- now.Before(until) and now.After(until).
abbrev pub before : ℕ → Option ℕ → Bool
before now none = false
before now (some until) = ltb now until

abbrev pub after : ℕ → Option ℕ → Bool
after now none = true
after now (some until) = ltb until now

abbrev pub is_zero : Option ℕ → Bool
is_zero none = true
is_zero (some t) = false

abbrev pub remaining : ℕ → Option ℕ → ℕ
remaining now none = 0
remaining now (some until) = to_ms (until - now)

-- The answer of checkLocked to the record found, and the map that it leaves.
unfoldable pub judge : ℕ → Str → Option Entry → Failures → Option Error × Failures
unfolding delete
judge now ip none m = (none, m)
judge now ip (some e) m =
    if before now e.state.locked_until
    then (some (pairing_rate_limited (remaining now e.state.locked_until)), m)
    else if is_zero e.state.locked_until
    then (none, m)
    else (none, delete (is_ip ip) m)

-- checkLocked.
unfoldable pub check_locked : ℕ → Str → Failures → Option Error × Failures
unfolding judge standing
check_locked now ip m = judge now ip (standing ip m) m

-- sweepFailuresLocked. A cutoff before 1970 drops nothing, as no failure lies before it.
abbrev pub is_stale : Config → ℕ → Entry → Bool
is_stale c now e = ltb e.state.last_failure (now - 2 * c.lockout) && after now e.state.locked_until

unfoldable pub sweep : Config → ℕ → Failures → Failures
unfolding delete
sweep c now m = delete (is_stale c now) m

-- The record after one more failure.
unfoldable pub strike : Config → ℕ → FailureState → FailureState
strike c now s = record s {
  count = s.count + 1;
  last_failure = now;
  locked_until =
      if leb c.max_attempts (s.count + 1) then some (now + c.lockout) else s.locked_until;
}

abbrev fresh : FailureState
fresh = record { count = 0; locked_until = none; last_failure = 0 }

abbrev pub strike_entry : Config → ℕ → Entry → Entry
strike_entry c now e = record e { state = strike c now e.state }

-- The new map, by whether the swept map holds a record of the IP.
unfoldable pub recorded : Config → ℕ → Str → Option Entry → Failures → Failures
unfolding strike update
recorded c now ip none m = m ++ record { ip = ip; state = strike c now fresh } ∷ []
recorded c now ip (some e) m = update (is_ip ip) (strike_entry c now) m

abbrev pub count_of : Option Entry → ℕ
count_of none = 0
count_of (some e) = e.state.count

-- failed: the error for the client, and the map.
unfoldable pub failed : Config → ℕ → Str → Error → Failures → Error × Failures
unfolding sweep standing recorded
failed c now ip want m =
    let swept = sweep c now m in
    let old = standing ip swept in
    (
      (if leb c.max_attempts (count_of old + 1)
          then pairing_rate_limited (to_ms c.lockout)
          else want),
      recorded c now ip old swept,
    )

-- clearFailures.
unfoldable pub clear_failures : Str → Failures → Failures
unfolding delete
clear_failures ip m = delete (is_ip ip) m
