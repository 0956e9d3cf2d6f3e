-- ===== src/Web/Dates/Spans.antt =====
-- Spans of days: `addDaysIso` counts them, and weeks and periods are made of them.
use ironman.Prelude.{
  ℕ, zero, suc, ◌+◌, ◌-◌, ◌%◌, ◌≤◌, ◌<◌, ◌≡◌, refl, ap, ◌∙◌, arith, ℤ, pos, negsuc, negated,
}
use ironman.Web.Dates.{
  Day, day_number, get_utc_day, next_day, previous_day, later, earlier, add_days, monday_of, Period,
  period_range,
}
use ironman.Web.Dates.Numbers.{
  IsDay, next_day-IsDay, day_number-next_day, previous-next, day_number-previous_day,
}

-- The day `e` lies `n` days from `d`.
abbrev pub Apart : ℤ → Day → Day → Type 0
Apart (pos n) d e = day_number e ≡ day_number d + n
Apart (negsuc n) d e = day_number e + suc n ≡ day_number d

-- The calendar has the days that are counted back.
abbrev pub Fits : ℤ → Day → Type 0
Fits (pos n) d = Unit
Fits (negsuc n) d = suc n ≤ day_number d

later-number :
    (n : ℕ) (d : Day) → IsDay d → IsDay (later n d) × (day_number (later n d) ≡ day_number d + n)
unfolding later
later-number zero d v = (v, omega arith)
later-number (suc n) d v =
    let (valid, number) = later-number n (next_day d) (next_day-IsDay d v) in
    (valid, omega (arith, number, day_number-next_day d v))

earlier-number :
    (n : ℕ) (d : Day)
    → IsDay d
    → n ≤ day_number d
    → IsDay (earlier n d) × (day_number (earlier n d) + n ≡ day_number d)
unfolding earlier
earlier-number zero d v fits = (v, omega arith)
earlier-number (suc n) d v fits =
    let (before, one) = day_number-previous_day d v (omega arith) in
    let (valid, number) = earlier-number n (previous_day d) before (omega (arith, one)) in
    (valid, omega (arith, number, one))

-- Adding days to a day of the calendar gives the day that lies so many days after it, or before it
-- where the number is negative and the calendar has that many days before.
pub add_days_exact :
    (d : Day) (n : ℤ) → IsDay d → Fits n d → IsDay (add_days d n) × Apart n d (add_days d n)
unfolding add_days
add_days_exact d (pos n) v fits = later-number n d v
add_days_exact d (negsuc n) v fits = earlier-number (suc n) d v fits

earlier-previous : (n : ℕ) (d : Day) → earlier n (previous_day d) ≡ previous_day (earlier n d)
unfolding earlier
earlier-previous zero d = refl
earlier-previous (suc n) d = earlier-previous n (previous_day d)

earlier-later : (n : ℕ) (d : Day) → IsDay d → earlier n (later n d) ≡ d
unfolding earlier later
earlier-later zero d v = refl
earlier-later (suc n) d v =
    earlier-previous n (later n (next_day d))
    ∙ ap previous_day (earlier-later n (next_day d) (next_day-IsDay d v))
    ∙ previous-next d v

-- Going forward some days and back as many leads to the same day.
pub add_days-back : (d : Day) (n : ℕ) → IsDay d → add_days (add_days d (pos n)) (negated n) ≡ d
unfolding add_days earlier later
add_days-back d zero v = earlier-later zero d v
add_days-back d (suc n) v = earlier-later (suc n) d v

back_to :
    (d : Day) (n : ℕ)
    → IsDay d
    → n ≤ day_number d
    → IsDay (add_days d (negated n)) × (day_number (add_days d (negated n)) + n ≡ day_number d)
unfolding add_days later
back_to d zero v fits = (v, omega arith)
back_to d (suc n) v fits = earlier-number (suc n) d v fits

-- The Monday of a day's week is a Monday, and the day lies in the seven days from it on, if the
-- calendar has a week before the day.
pub monday_of_exact :
    (d : Day)
    → IsDay d
    → 7 ≤ day_number d
    → (get_utc_day (monday_of d) ≡ 1)
      × (day_number (monday_of d) ≤ day_number d)
      × (day_number d < day_number (monday_of d) + 7)
unfolding monday_of get_utc_day
monday_of_exact d v fits =
    let (valid, number) = back_to d (((day_number d + 6) % 7 + 6) % 7) v (omega arith) in
    (omega (arith, number), omega (arith, number), omega (arith, number))

-- A period of some days ends today and has exactly that many days, both ends counted.
pub period_range_exact :
    (today : Day) (days : ℕ)
    → IsDay today
    → 0 < days
    → days ≤ day_number today
    → (Period.to (period_range today days) ≡ today)
      × IsDay (Period.from (period_range today days))
      × (day_number (Period.from (period_range today days)) + days ≡ day_number today + 1)
unfolding period_range
period_range_exact today days v some_days fits =
    let (valid, number) = back_to today (days - 1) v (omega arith) in
    (refl, valid, omega (arith, number))
