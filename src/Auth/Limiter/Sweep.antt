-- ===== src/Auth/Limiter/Sweep.antt =====
-- The sweep of old records, seen through checkLocked.
use homesink.Base.{ℕ, ◌≤◌, ◌≡◌, refl, [], ◌∷◌, none, Str, str_eq_iff, arith}
use homesink.Auth.Limiter.{Failures, Config, standing, check_locked, sweep}

-- Each IP has one record.
abbrev pub IsMap : Failures → Type 0
IsMap [] = Unit {0}
IsMap (e ∷ m) = (standing e.ip m ≡ none) × IsMap m

-- Where each IP has one record, what checkLocked answers at the time of a sweep or later is what
-- it answers with the sweep left out.
pub check_locked-sweep :
    (c : Config) (now later : ℕ) (ip : Str) (m : Failures)
    → IsMap m
    → now ≤ later
    → (check_locked later ip (sweep c now m)).0 ≡ (check_locked later ip m).0
unfolding check_locked sweep
check_locked-sweep c now later ip [] u h = refl
check_locked-sweep c now later ip (e ∷ m) u h =
    ground (arith, check_locked-sweep c now later ip m u.1 h, str_eq_iff e.ip ip)
