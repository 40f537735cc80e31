-- ===== src/Library/Calendar.antt =====
-- yearMonth of backend/internal/library/paths.go: the year and month of an instant in a fixed zone,
-- in the proleptic Gregorian calendar of package time.
pub mod Inverse
use homesink.Base.{
  ℕ, zero, suc, ◌+◌, ◌-◌, ◌%◌, Bool, not, ◌&&◌, ◌||◌, List, [], ◌∷◌, ltb, ◌==◌, if◌then◌else◌,
}
use homesink.Base.Int.{ℤ, ◌+ℤ◌, plus_ℕ, minus_ℕ, floor_div, floor_mod, times_ℕ}

abbrev pub ms_per_day : ℕ
ms_per_day = 86400000

abbrev pub ms_per_min : ℕ
ms_per_min = 60000

-- A cycle of 400 years has 146097 days; the cycle in use began on 1 January 2000, day 10957.
abbrev pub cycle_days : ℕ
cycle_days = 146097

abbrev pub epoch_days : ℕ
epoch_days = 10957

-- Years are counted from the start of a cycle, months from 0.
abbrev pub is_leap : ℕ → Bool
is_leap y = ((y % 4 == 0) && not (y % 100 == 0)) || (y % 400 == 0)

abbrev pub year_days : ℕ → ℕ
year_days y = if is_leap y then 366 else 365

abbrev pub month_lengths : Bool → List ℕ
month_lengths leap =
    31 ∷ (if leap then 29 else 28) ∷ 31 ∷ 30 ∷ 31 ∷ 30 ∷ 31 ∷ 31 ∷ 30 ∷ 31 ∷ 30 ∷ 31 ∷ []

-- The year of a day of the cycle, with the day of that year; then the month, with its day.
unfoldable pub year_loop : ℕ → ℕ → ℕ → ℕ × ℕ
year_loop zero y day = (y, day)
year_loop (suc fuel) y day =
    let rest = year_loop fuel (suc y) (day - year_days y) in
    if ltb day (year_days y) then (y, day) else rest

unfoldable pub month_loop : List ℕ → ℕ → ℕ → ℕ × ℕ
month_loop [] m day = (m, day)
month_loop (n ∷ ns) m day =
    let rest = month_loop ns (suc m) (day - n) in if ltb day n then (m, day) else rest

-- The day at the capture site, counted from 1 January 1970.
unfoldable pub local_day : ℤ → ℤ → ℤ
unfolding ◌+ℤ◌ floor_div times_ℕ
local_day captured_at_ms offset_min =
    floor_div (captured_at_ms +ℤ times_ℕ offset_min ms_per_min) ms_per_day

-- A day as its cycle, its year of the cycle and its month, with the day of the month from 0.
pub record Date : Type 0 where
  pub cycle : ℤ
  pub year_of_cycle : ℕ
  pub month_index : ℕ
  pub day_index : ℕ

abbrev pub in_year : ℤ → ℕ × ℕ → Date
in_year cycle (y, day) =
    let (m, d) = month_loop (month_lengths (is_leap y)) 0 day in
    record { cycle = cycle; year_of_cycle = y; month_index = m; day_index = d }

unfoldable pub date_of : ℤ → Date
unfolding year_loop month_loop floor_div floor_mod minus_ℕ
date_of day =
    let since = minus_ℕ day epoch_days in
    in_year (floor_div since cycle_days) (year_loop 400 0 (floor_mod since cycle_days))

unfoldable pub year_of : Date → ℤ
unfolding plus_ℕ times_ℕ
year_of d = plus_ℕ (times_ℕ d.cycle 400) (2000 + d.year_of_cycle)

unfoldable pub year_month : ℤ → ℤ → ℤ × ℕ
unfolding date_of year_of local_day
year_month captured_at_ms offset_min =
    let d = date_of (local_day captured_at_ms offset_min) in (year_of d, suc d.month_index)
