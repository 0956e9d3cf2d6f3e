-- ===== src/Web/Dates/Numbers.antt =====
-- The days of the calendar, one after another.
use ironman.Prelude.{
  ℕ, zero, suc, ◌+◌, ◌-◌, ◌≤◌, ◌<◌, ◌≡◌, refl, sym, ap, ◌∙◌, inl, inr, arith, true, ltb, Bool-cases,
  ltb→lt, subst, ◌⊎◌, if◌then◌else◌,
}
use ironman.Web.Dates.{
  Day, days_in_month, month_start, year_start, day_number, next_day, previous_day, end_before,
}

-- A day that the calendar has.
pub record IsDay (d : Day) : Type 0 where
  pub month_small : d.month < 12
  pub day_positive : 0 < d.day
  pub day_small : d.day ≤ days_in_month d.year d.month

days_in_month-bounds : (y m : ℕ) → (28 ≤ days_in_month y m) × (days_in_month y m ≤ 31)
unfolding days_in_month
days_in_month-bounds y m = ground arith

december : (y : ℕ) → days_in_month y 11 ≡ 31
unfolding days_in_month
december y = refl

month_start-eq-add : (y m : ℕ) → month_start y (suc m) ≡ month_start y m + days_in_month y m
unfolding month_start
month_start-eq-add y m = refl

month_start_zero : (y : ℕ) → month_start y 0 ≡ 0
unfolding month_start
month_start_zero y = refl

year_start_zero : year_start 0 ≡ 0
unfolding year_start
year_start_zero = refl

year_start-eq-add : (y : ℕ) → year_start (suc y) ≡ year_start y + month_start y 12
unfolding year_start
year_start-eq-add y = refl

-- Where the next day stands: in the same month, in the next one, or in the next year.
abbrev Next : Day → Day → Type 0
Next d e =
    ((d.day < days_in_month d.year d.month) × (e ≡ record d { day = suc d.day }))
    ⊎ (((d.day ≡ days_in_month d.year d.month)
          × (d.month < 11)
          × (e ≡ record d { month = suc d.month; day = 1 }))
        ⊎ ((d.day ≡ 31) × (d.month ≡ 11) × (e ≡ record { year = suc d.year; month = 0; day = 1 })))

next_day-cases : (d : Day) → IsDay d → Next d (next_day d)
unfolding next_day
next_day-cases d v = elim (Bool-cases (ltb d.day (days_in_month d.year d.month))) [
  | inl e ↦ inl (ltb→lt _ _ e, rw e refl)
  | inr e ↦ elim (Bool-cases (ltb d.month 11)) [
    | inl f ↦ inr (inl (ground (arith, v.day_small), ltb→lt _ _ f, rw e (rw f refl)))
    | inr f ↦ inr (
        inr (
          last_day (ground (arith, v.month_small)) (ground (arith, v.day_small)),
          ground (arith, v.month_small),
          rw e (rw f refl),
        ))
  ]
]
  where
    last_day : d.month ≡ 11 → d.day ≡ days_in_month d.year d.month → d.day ≡ 31
    last_day m e = e ∙ ap (days_in_month d.year) m ∙ december d.year

pub next_day-IsDay : (d : Day) → IsDay d → IsDay (next_day d)
next_day-IsDay d v = elim (next_day-cases d v) [
  | inl (small, e) ↦
      subst IsDay (sym e)
        (record { month_small = v.month_small; day_positive = omega arith; day_small = small })
  | inr (inl (last, m, e)) ↦ subst IsDay (sym e) (record {
    month_small = omega arith;
    day_positive = omega arith;
    day_small = omega (arith, days_in_month-bounds d.year (suc d.month));
  })
  | inr (inr (last, m, e)) ↦ subst IsDay (sym e) (record {
    month_small = omega arith;
    day_positive = omega arith;
    day_small = omega (arith, days_in_month-bounds (suc d.year) 0);
  })
]

pub day_number-next_day : (d : Day) → IsDay d → day_number (next_day d) ≡ suc (day_number d)
unfolding day_number
day_number-next_day d v = elim (next_day-cases d v) [
  | inl (small, e) ↦ ap day_number e ∙ omega (arith, v.day_positive)
  | inr (inl (last, m, e)) ↦
      ap day_number e ∙ omega (arith, month_start-eq-add d.year d.month, v.day_positive)
  | inr (inr (last, m, e)) ↦ ap day_number e ∙ year_end last m
]
  where
    year_end :
        d.day ≡ 31
        → d.month ≡ 11
        → year_start (suc d.year) + (month_start (suc d.year) 0 + (1 - 1)) ≡ suc (day_number d)
    year_end last m = omega (
      arith,
      year_start-eq-add d.year,
      month_start-eq-add d.year 11,
      december d.year,
      ap (month_start d.year) m,
      month_start_zero (suc d.year),
    )

pub previous-next : (d : Day) → IsDay d → previous_day (next_day d) ≡ d
unfolding previous_day
previous-next d v = elim (next_day-cases d v) [
  | inl (small, e) ↦ ap previous_day e ∙ one_less
  | inr (inl (last, m, e)) ↦ ap previous_day e ∙ ap (λ n. record d { day = n }) (sym last)
  | inr (inr (last, m, e)) ↦
      ap previous_day e ∙ (λ i. record { year = d.year; month = sym m i; day = sym last i })
]
  where
    one_less :
        (if ltb 1 (suc d.day) then record d { day = suc d.day - 1 } else end_before d.year d.month)
        ≡ d
    one_less =
        let more : ltb 1 (suc d.day) ≡ true = ground (arith, v.day_positive) in
        rw more (ap (λ (n : ℕ). record d { day = n }) (omega arith))

-- What comes before the first day of a month.
abbrev Before : ℕ → ℕ → Day → Type 0
Before y m e = IsDay e × (suc (day_number e) ≡ year_start y + month_start y m)

last_of : (y m : ℕ) → m < 12 → IsDay (record { year = y; month = m; day = days_in_month y m })
last_of y m small = record {
  month_small = small;
  day_positive = omega (arith, days_in_month-bounds y m);
  day_small = omega arith;
}

end_before-number :
    (y m : ℕ) → m < 12 → 0 < year_start y + month_start y m → Before y m (end_before y m)
unfolding day_number
end_before-number zero zero small later_than =
    absurd (omega (arith, month_start_zero 0, year_start_zero))
end_before-number (suc y) zero small later_than = (
  record {
    month_small = omega arith;
    day_positive = omega arith;
    day_small = omega (arith, december y);
  },
  omega (arith, year_start-eq-add y, month_start-eq-add y 11, december y, month_start_zero (suc y)),
)
end_before-number zero (suc m) small later_than =
    (last_of 0 m (omega arith), omega (arith, month_start-eq-add 0 m, days_in_month-bounds 0 m))
end_before-number (suc y) (suc m) small later_than = (
  last_of (suc y) m (omega arith),
  omega (arith, month_start-eq-add (suc y) m, days_in_month-bounds (suc y) m),
)

pub day_number-previous_day :
    (d : Day)
    → IsDay d
    → 0 < day_number d
    → IsDay (previous_day d) × (suc (day_number (previous_day d)) ≡ day_number d)
unfolding previous_day day_number
day_number-previous_day d v later_than = elim (Bool-cases (ltb 1 d.day)) [
  | inl e ↦ rw e (
    record {
      month_small = v.month_small;
      day_positive = ground arith;
      day_small = omega (arith, v.day_small);
    },
    ground (arith, v.day_positive),
  )
  | inr e ↦ rw e (
      let (valid, number) =
        end_before-number d.year d.month v.month_small (ground (arith, v.day_positive)) in
      (valid, ground (arith, number, v.day_positive)))
]
