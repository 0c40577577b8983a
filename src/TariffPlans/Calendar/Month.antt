-- ===== src/TariffPlans/Calendar/Month.antt =====
-- The number of days of a month, which the code reads off the day before the next month.
use vpnshiki.TariffPlans.Calendar.Laws.{date, first_day_of, previous_month, previous_year}
use vpnshiki.Prelude.Int.{pos, ◌+ℤ◌}
use vpnshiki.Prelude.{
  ℕ, some, inl, inr, refl, ◌≤◌, ◌+◌, ◌≡◌, Bool-cases, ◌*◌, ◌<◌, ap, ◌-◌, ◌==◌, arith, ◌/◌, ◌%◌, ◌∙◌,
  sym, ltb, if◌then◌else◌,
}
use vpnshiki.TariffPlans.Calendar.{
  days_in_month, get_days_in_moscow_month, shift, days_earlier, CalendarDate, parse_date,
  previous_day, utc_year,
}
use vpnshiki.Text.{Text}

last_of :
    (y m : ℕ)
    → 1 ≤ m
    → m < 12
    → shift (date y (m + 1) 0) (pos 0) ≡ date (utc_year y) m (days_in_month (utc_year y) m)
unfolding shift ◌+ℤ◌ days_earlier
last_of y m low high =
    ap previous_day (first_day_of (utc_year y) (m + 1) (omega arith) (omega (arith, high)))
    ∙ previous_month (utc_year y) m low

last_of_december : (y : ℕ) → shift (date y 13 0) (pos 0) ≡ date (utc_year y) 12 31
unfolding shift ◌+ℤ◌ days_earlier
last_of_december y =
    let z = utc_year y in
    let year : (z * 12 + 13 - 1) / 12 ≡ z + 1 = omega arith in
    let month : (z * 12 + 13 - 1) % 12 + 1 ≡ 1 = omega arith in
    (λ i. previous_day (date (year i) (month i) 1)) ∙ previous_year z

december_has : (y : ℕ) → days_in_month y 12 ≡ 31
unfolding days_in_month
december_has y = refl

last_day :
    (y m : ℕ)
    → 1 ≤ m
    → m ≤ 12
    → (shift (date y (m + 1) 0) (pos 0)).day ≡ days_in_month (utc_year y) m
last_day y m low high = elim (Bool-cases (m == 12)) [
  | inl december ↦
      let twelve : m ≡ 12 = ground arith in
      ap (λ k. (shift (date y (k + 1) 0) (pos 0)).day) twelve
      ∙ ap (λ d. d.day) (last_of_december y)
      ∙ sym (december_has (utc_year y))
      ∙ ap (days_in_month (utc_year y)) (sym twelve)
  | inr other ↦ ap (λ d. d.day) (last_of y m low (ground arith))
]

-- For a date that reads as a year, a month from 1 to 12 and a day, the day before the first of the next
-- month tells how many days its month has in the calendar, in December and in leap years too, where a year
-- below 100 is the one of the twentieth century that ends like it.
pub get_days_in_moscow_month_lem :
    (value : Text) (d : CalendarDate)
    → parse_date value ≡ some d
    → 1 ≤ d.month
    → d.month ≤ 12
    → get_days_in_moscow_month value
      ≡ some (days_in_month (if ltb d.year 100 then d.year + 1900 else d.year) d.month)
unfolding get_days_in_moscow_month
get_days_in_moscow_month_lem value d e low high =
    rw (e, get_days_in_moscow_month) (ap some (last_day d.year d.month low high))
