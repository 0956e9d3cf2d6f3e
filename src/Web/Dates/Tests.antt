-- ===== src/Web/Dates/Tests.antt =====
-- Days around a leap day.
use ironman.Prelude.{◌≡◌, ◌≤◌, refl, arith, pos}
use ironman.Web.Dates.{
  Day, days_in_month, month_start, year_start, day_number, later, next_day, add_days,
}
use ironman.Web.Dates.Numbers.{IsDay}

abbrev leap_day : Day
leap_day = record { year = 2024; month = 1; day = 29 }

leap_day-IsDay : IsDay leap_day
unfolding days_in_month
leap_day-IsDay = record {
  month_small = omega arith;
  day_positive = omega arith;
  day_small = omega arith;
}

leap_day_number : day_number leap_day ≡ 739310
unfolding day_number year_start month_start days_in_month
leap_day_number = refl

late_enough : 7 ≤ day_number leap_day
late_enough = omega (arith, leap_day_number)

day_after : add_days leap_day (pos 1) ≡ record { year = 2024; month = 2; day = 1 }
unfolding add_days later next_day days_in_month
day_after = refl
