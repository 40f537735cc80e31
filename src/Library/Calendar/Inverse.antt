-- ===== src/Library/Calendar/Inverse.antt =====
-- year_month against the day that a year, a month and a day of the month stand for.
use homesink.Base.{
  ℕ, zero, suc, subst, ◌+◌, ◌-◌, ◌<◌, ◌≡◌, refl, sym, ap, ap₂, ◌∙◌, inl, inr, List, [], ◌∷◌, ltb,
  arith, Bool-cases, ltb→lt, ltb-false, length,
}
use homesink.Base.Int.{ℤ, ◌+ℤ◌, pos, negsuc, plus_ℕ, minus_ℕ, floor_div, floor_mod, times_ℕ}
use homesink.Library.Calendar.{
  ms_per_day, ms_per_min, cycle_days, epoch_days, is_leap, year_days, month_lengths, year_loop,
  month_loop, Date, in_year, date_of, year_of, year_month, local_day,
}

-- The days of the first `n` years from `y` on, and of the first `n` months of a list.
unfoldable pub years_days : ℕ → ℕ → ℕ
years_days zero y = 0
years_days (suc n) y = year_days y + years_days n (suc y)

abbrev pub sum : List ℕ → ℕ
sum [] = 0
sum (n ∷ ns) = n + sum ns

abbrev pub first_days : ℕ → List ℕ → ℕ
first_days zero ns = 0
first_days (suc m) [] = 0
first_days (suc m) (n ∷ ns) = n + first_days m ns

-- The days of one month of a list.
abbrev pub days_in : ℕ → List ℕ → ℕ
days_in m [] = 0
days_in zero (n ∷ ns) = n
days_in (suc m) (n ∷ ns) = days_in m ns

-- What a loop finds, from year `y` on.
pub record YearFound (fuel y day : ℕ) (found : ℕ × ℕ) : Type 0 where
  pub passed : ℕ
  pub year : found.0 ≡ y + passed
  pub within : passed < fuel
  pub inside : found.1 < year_days found.0
  pub total : years_days passed y + found.1 ≡ day

year_loop-YearFound :
    (fuel y day : ℕ) → day < years_days fuel y → YearFound fuel y day (year_loop fuel y day)
unfolding year_loop years_days
year_loop-YearFound zero y day h = absurd (omega arith)
year_loop-YearFound (suc fuel) y day h = elim (Bool-cases (ltb day (year_days y))) [
  | inl t ↦ rw t (record {
    passed = 0;
    year = omega arith;
    within = omega arith;
    inside = ltb→lt day (year_days y) t;
    total = omega arith;
  })
  | inr t ↦
      let f =
        year_loop-YearFound fuel (suc y) (day - year_days y)
          (omega (arith, ltb-false day (year_days y) t)) in
      rw t (record {
        passed = suc f.passed;
        year = omega (arith, f.year);
        within = omega (arith, f.within);
        inside = f.inside;
        total = omega (arith, f.total, ltb-false day (year_days y) t);
      })
]

pub record MonthFound (ns : List ℕ) (m day : ℕ) (found : ℕ × ℕ) : Type 0 where
  pub passed : ℕ
  pub month : found.0 ≡ m + passed
  pub within : passed < length ns
  pub inside : found.1 < days_in passed ns
  pub total : first_days passed ns + found.1 ≡ day

month_loop-MonthFound :
    (ns : List ℕ) (m day : ℕ) → day < sum ns → MonthFound ns m day (month_loop ns m day)
unfolding month_loop
month_loop-MonthFound [] m day h = absurd (omega arith)
month_loop-MonthFound (n ∷ ns) m day h = elim (Bool-cases (ltb day n)) [
  | inl t ↦ rw t (record {
    passed = 0;
    month = omega arith;
    within = omega arith;
    inside = ltb→lt day n t;
    total = omega arith;
  })
  | inr t ↦
      let f = month_loop-MonthFound ns (suc m) (day - n) (omega (arith, ltb-false day n t)) in
      rw t (record {
        passed = suc f.passed;
        month = omega (arith, f.month);
        within = omega (arith, f.within);
        inside = f.inside;
        total = omega (arith, f.total, ltb-false day n t);
      })
]

sum-month_lengths : (y : ℕ) → sum (month_lengths (is_leap y)) ≡ year_days y
sum-month_lengths y = elim (Bool-cases (is_leap y)) [ inl t ↦ rw t refl | inr t ↦ rw t refl ]

years_days-cycle : years_days 400 0 ≡ cycle_days
unfolding years_days
years_days-cycle = refl

-- The day of a date within its cycle, and counted from 1 January 1970.
abbrev pub day_of_cycle : Date → ℕ
day_of_cycle d =
    years_days d.year_of_cycle 0
    + (first_days d.month_index (month_lengths (is_leap d.year_of_cycle)) + d.day_index)

unfoldable pub day_of : Date → ℤ
unfolding plus_ℕ times_ℕ
day_of d = plus_ℕ (times_ℕ d.cycle cycle_days) (day_of_cycle d + epoch_days)

floor_lem :
    (a : ℤ) → plus_ℕ (times_ℕ (floor_div a cycle_days) cycle_days) (floor_mod a cycle_days) ≡ a
unfolding plus_ℕ times_ℕ floor_div floor_mod
floor_lem (pos a) = ap pos (omega arith)
floor_lem (negsuc a) = ground arith

plus-plus : (a : ℤ) (m n : ℕ) → plus_ℕ (plus_ℕ a m) n ≡ plus_ℕ a (m + n)
unfolding plus_ℕ
plus-plus (pos a) m n = ap pos (omega arith)
plus-plus (negsuc a) m n = ground arith

plus-minus : (a : ℤ) (n : ℕ) → plus_ℕ (minus_ℕ a n) n ≡ a
unfolding plus_ℕ minus_ℕ
plus-minus (pos a) n = ground arith
plus-minus (negsuc a) n = ground arith

floor_mod-lt : (a : ℤ) → floor_mod a cycle_days < cycle_days
unfolding floor_mod
floor_mod-lt (pos a) = omega arith
floor_mod-lt (negsuc a) = omega arith

-- The date of a day of the cycle.
pub record DateFound (cycle : ℤ) (day : ℕ) (d : Date) : Type 0 where
  pub same : d.cycle ≡ cycle
  pub year : d.year_of_cycle < 400
  pub month : d.month_index < 12
  pub in_month : d.day_index < days_in d.month_index (month_lengths (is_leap d.year_of_cycle))
  pub total : day_of_cycle d ≡ day

months_total :
    (ns : List ℕ) (day : ℕ) (found : ℕ × ℕ)
    → MonthFound ns 0 day found
    → first_days found.0 ns + found.1 ≡ day
months_total ns day found f =
    let same : found.0 ≡ f.passed = omega (arith, f.month) in
    ap (λ (m : ℕ). first_days m ns + found.1) same ∙ f.total

month_inside :
    (ns : List ℕ) (day : ℕ) (found : ℕ × ℕ)
    → MonthFound ns 0 day found
    → found.1 < days_in found.0 ns
month_inside ns day found f =
    let same : f.passed ≡ found.0 = omega (arith, f.month) in
    subst (λ (m : ℕ). found.1 < days_in m ns) same f.inside

years_total :
    (fuel day : ℕ) (found : ℕ × ℕ)
    → YearFound fuel 0 day found
    → years_days found.0 0 + found.1 ≡ day
years_total fuel day found f =
    let same : found.0 ≡ f.passed = omega (arith, f.year) in
    ap (λ (y : ℕ). years_days y 0 + found.1) same ∙ f.total

in_year-DateFound :
    (cycle : ℤ) (day : ℕ) (found : ℕ × ℕ)
    → YearFound 400 0 day found
    → DateFound cycle day (in_year cycle found)
in_year-DateFound cycle day (y, rest) f =
    let ns = month_lengths (is_leap y) in
    let m = month_loop-MonthFound ns 0 rest (rw (sum-month_lengths y) f.inside) in
    record {
      same = refl;
      year = omega (arith, f.year, f.within);
      month = omega (arith, m.month, m.within);
      in_month = month_inside ns rest (month_loop ns 0 rest) m;
      total =
          ap (λ (n : ℕ). years_days y 0 + n) (months_total ns rest (month_loop ns 0 rest) m)
          ∙ years_total 400 day (y, rest) f;
    }

date_of-DateFound :
    (day : ℤ)
    → DateFound
        (floor_div (minus_ℕ day epoch_days) cycle_days)
        (floor_mod (minus_ℕ day epoch_days) cycle_days)
        (date_of day)
unfolding date_of
date_of-DateFound day =
    let since = minus_ℕ day epoch_days in
    in_year-DateFound (floor_div since cycle_days) (floor_mod since cycle_days)
      (year_loop 400 0 (floor_mod since cycle_days))
      (year_loop-YearFound 400 0 (floor_mod since cycle_days)
        (rw years_days-cycle (floor_mod-lt since)))

day_of_lem :
    (d : Date) (since : ℤ)
    → DateFound (floor_div since cycle_days) (floor_mod since cycle_days) d
    → day_of d ≡ plus_ℕ since epoch_days
unfolding day_of
day_of_lem d since f =
    ap₂ (λ (c : ℤ) (n : ℕ). plus_ℕ (times_ℕ c cycle_days) (n + epoch_days)) f.same f.total
    ∙ sym (
        plus-plus (times_ℕ (floor_div since cycle_days) cycle_days) (floor_mod since cycle_days)
          epoch_days)
    ∙ ap (λ (a : ℤ). plus_ℕ a epoch_days) (floor_lem since)

-- The year, month and day of the month that a day is split into stand for that day again.
day_of-date_of : (day : ℤ) → day_of (date_of day) ≡ day
day_of-date_of day =
    day_of_lem (date_of day) (minus_ℕ day epoch_days) (date_of-DateFound day)
    ∙ plus-minus day epoch_days

day_lem :
    (a : ℤ) → plus_ℕ (times_ℕ (floor_div a ms_per_day) ms_per_day) (floor_mod a ms_per_day) ≡ a
unfolding plus_ℕ times_ℕ floor_div floor_mod
day_lem (pos a) = ap pos (omega arith)
day_lem (negsuc a) = ground arith

ms_of_day-lt : (a : ℤ) → floor_mod a ms_per_day < ms_per_day
unfolding floor_mod
ms_of_day-lt (pos a) = omega arith
ms_of_day-lt (negsuc a) = omega arith

-- A year and a month, counted from 1, are those of an instant as a clock reads it that is `offset`
-- minutes ahead of UTC: with some day of that month of the Gregorian calendar, whose cycles of 400
-- years are counted from the year 2000, and with less than a day of milliseconds, they make up the
-- instant and the offset.
pub record IsMonthAt (captured_at_ms offset : ℤ) (found : ℤ × ℕ) : Type 0 where
  pub date : Date
  pub ms_of_day : ℕ
  pub in_cycle : date.year_of_cycle < 400
  pub in_year : date.month_index < 12
  pub in_month :
      date.day_index < days_in date.month_index (month_lengths (is_leap date.year_of_cycle))
  pub in_day : ms_of_day < 86_400_000
  pub year : found.0 ≡ plus_ℕ (times_ℕ date.cycle 400) (2000 + date.year_of_cycle)
  pub month : found.1 ≡ date.month_index + 1
  pub instant :
      plus_ℕ (times_ℕ (day_of date) 86_400_000) ms_of_day ≡ captured_at_ms +ℤ times_ℕ offset 60_000

-- For every capture time and offset, before 1970 too, yearMonth gives the year and the month of the
-- capture as a clock at the capture site reads it, the month from 1 to 12.
pub year_month-IsMonthAt :
    (captured_at_ms offset_min : ℤ)
    → IsMonthAt captured_at_ms offset_min (year_month captured_at_ms offset_min)
unfolding year_month year_of local_day
year_month-IsMonthAt captured_at_ms offset_min =
    let instant = captured_at_ms +ℤ times_ℕ offset_min ms_per_min in
    let day = floor_div instant ms_per_day in
    let f = date_of-DateFound day in
    record {
      date = date_of day;
      ms_of_day = floor_mod instant ms_per_day;
      in_cycle = f.year;
      in_year = f.month;
      in_month = f.in_month;
      in_day = ms_of_day-lt instant;
      year = refl;
      month = omega arith;
      instant =
          ap (λ (d : ℤ). plus_ℕ (times_ℕ d ms_per_day) (floor_mod instant ms_per_day))
            (day_of-date_of day)
          ∙ day_lem instant;
    }
