-- ===== src/Web/Dates.antt =====
-- Calendar days of the console: addDaysIso of apps/web/lib/format.ts, mondayOf of
-- apps/web/components/analytics/weekly-panel.tsx, periodRange of period-picker.tsx beside it. An ISO
-- text of a day is its three numbers, with the month from 0 as `Date` counts it; the years are from 0.
pub mod Numbers
pub mod Spans
mod Tests
use ironman.Prelude.{
  ℕ, zero, suc, ◌+◌, ◌-◌, ◌*◌, ◌%◌, ◌≤◌, ◌<◌, ℤ, pos, negsuc, negated, Bool, true, false, not, ◌||◌,
  ◌&&◌, nat_eq, ltb, if◌then◌else◌,
}

pub record Day : Type 0 where
  pub year : ℕ
  pub month : ℕ
  pub day : ℕ

abbrev pub is_leap : ℕ → Bool
is_leap y = nat_eq (y % 4) 0 && (not (nat_eq (y % 100) 0) || nat_eq (y % 400) 0)

abbrev pub days_in_february : ℕ → ℕ
days_in_february y = if is_leap y then 29 else 28

unfoldable pub days_in_month : ℕ → ℕ → ℕ
days_in_month y m =
    if nat_eq m 1
    then days_in_february y
    else if nat_eq m 3 || (nat_eq m 5 || (nat_eq m 8 || nat_eq m 10))
    then 30
    else 31

-- The days before a month of a year.
unfoldable pub month_start : ℕ → ℕ → ℕ
month_start y zero = 0
month_start y (suc m) = month_start y m + days_in_month y m

-- The days before a year, from the first day of year 0.
unfoldable pub year_start : ℕ → ℕ
year_start zero = 0
year_start (suc y) = year_start y + month_start y 12

unfoldable pub day_number : Day → ℕ
day_number d = year_start d.year + (month_start d.year d.month + (d.day - 1))

-- `getUTCDay()`: 0 is Sunday. The first day of year 0 was a Saturday.
unfoldable pub get_utc_day : Day → ℕ
get_utc_day d = (day_number d + 6) % 7

unfoldable pub next_day : Day → Day
next_day d =
    if ltb d.day (days_in_month d.year d.month)
    then record d { day = suc d.day }
    else if ltb d.month 11
    then record d { month = suc d.month; day = 1 }
    else record { year = suc d.year; month = 0; day = 1 }

-- The last day of the month before, by its position: there is none before the first month of year 0.
abbrev pub end_before : ℕ → ℕ → Day
end_before zero zero = record { year = 0; month = 0; day = 1 }
end_before (suc y) zero = record { year = y; month = 11; day = 31 }
end_before y (suc m) = record { year = y; month = m; day = days_in_month y m }

unfoldable pub previous_day : Day → Day
previous_day d = if ltb 1 d.day then record d { day = d.day - 1 } else end_before d.year d.month

unfoldable pub later : ℕ → Day → Day
later zero d = d
later (suc n) d = later n (next_day d)

unfoldable pub earlier : ℕ → Day → Day
earlier zero d = d
earlier (suc n) d = earlier n (previous_day d)

-- `setUTCDate(getUTCDate() + days)`: the calendar moves on day by day, into other months and years.
unfoldable pub add_days : Day → ℤ → Day
add_days d (pos n) = later n d
add_days d (negsuc n) = earlier (suc n) d

unfoldable pub monday_of : Day → Day
monday_of d = add_days d (negated ((get_utc_day d + 6) % 7))

pub record Period : Type 0 where
  pub from : Day
  pub to : Day

-- `periodRange(days)` on the day that is today.
unfoldable pub period_range : Day → ℕ → Period
period_range today days = record { from = add_days today (negated (days - 1)); to = today }
