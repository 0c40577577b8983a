-- ===== src/TariffPlans/Calendar/DayNumber.antt =====
-- The days of the calendar by their numbers, in the closed form of the Gregorian calendar.
use vpnshiki.Prelude.{
  ℕ, zero, suc, ◌+◌, ◌-◌, ◌*◌, ◌/◌, ◌≤◌, ◌<◌, ◌≡◌, ltb, ◌==◌, if◌then◌else◌, Bool-cases, inl, inr,
  arith, leb, refl, subst, ap, ◌∙◌, sym,
}
use vpnshiki.TariffPlans.Calendar.{
  CalendarDate, days_in_month, next_day, previous_day, days_later, days_earlier, is_leap, shift,
}
use vpnshiki.TariffPlans.Calendar.Laws.{
  IsValid, days_in_month_bounds, december_full, days_later-IsValid, shift-pos, shift-neg,
}
use vpnshiki.Prelude.Int.{ℤ, pos, negsuc, pos_part, neg_part}

-- The leap years before a year, from the year 0 on.
unfoldable pub leap_years : ℕ → ℕ
leap_years y = (y + 3) / 4 + (y + 399) / 400 - (y + 99) / 100

-- The days of a year before a month.
unfoldable pub days_before : ℕ → ℕ → ℕ
days_before y m = (367 * m - 362) / 12 - (if leb m 2 then 0 else if is_leap y then 1 else 2)

-- 1 for the first of January of the year 0.
unfoldable pub day_number : CalendarDate → ℕ
day_number d = 365 * d.year + leap_years d.year + days_before d.year d.month + d.day

days_before-suc :
    (y m : ℕ) → 1 ≤ m → m < 12 → days_before y (m + 1) ≡ days_before y m + days_in_month y m
unfolding days_before days_in_month
days_before-suc y m low high = ground arith

days_before-one : (y : ℕ) → days_before y 1 ≡ 0
unfolding days_before
days_before-one y = refl

-- The days before a year and those of the year are the days before the next year.
leap_years-suc :
    (y : ℕ) → 365 * (y + 1) + leap_years (y + 1) ≡ 365 * y + leap_years y + days_before y 12 + 31
unfolding leap_years days_before
leap_years-suc y = ground arith

december : (y : ℕ) → days_in_month y 12 ≡ 31
unfolding days_in_month
december y = refl

next_day-number : (d : CalendarDate) → IsValid d → day_number (next_day d) ≡ day_number d + 1
unfolding next_day day_number
next_day-number d v = elim (Bool-cases (ltb d.day (days_in_month d.year d.month))) [
  | inl within ↦ simp within (ground arith)
  | inr last ↦ simp last (elim (Bool-cases (d.month == 12)) [
    | inl twelve ↦
        let month : d.month ≡ 12 = ground arith in
        let full : d.day ≡ 31 =
          december_full d.year d.month d.day month (ground arith) v.has_day.1 in
        simp twelve (
          omega (
            arith,
            leap_years-suc d.year,
            days_before-one (d.year + 1),
            ap (days_before d.year) month,
            full,
          ))
    | inr other ↦
        simp other (ground (arith, v.has_day, v.has_month, days_before-suc d.year d.month))
  ])
]

positive_year : (d : CalendarDate) → 1 < day_number d → d.month ≡ 1 → d.day ≡ 1 → 1 ≤ d.year
unfolding day_number leap_years days_before
positive_year d h m k = ground arith

previous_day-number :
    (d : CalendarDate)
    → IsValid d
    → 1 < day_number d
    → day_number (previous_day d) + 1 ≡ day_number d
unfolding previous_day day_number
previous_day-number d v h = elim (Bool-cases (ltb 1 d.day)) [
  | inl later ↦ simp later (ground arith)
  | inr first ↦ simp first (elim (Bool-cases (d.month == 1)) [
    | inl january ↦
        let month : d.month ≡ 1 = ground arith in
        let one : d.day ≡ 1 = ground (arith, v.has_day) in
        let positive : 1 ≤ d.year = positive_year d h month one in
        let same : d.year - 1 + 1 ≡ d.year = omega (arith, positive) in
        simp january (
          omega (
            arith,
            leap_years-suc (d.year - 1),
            ap leap_years same,
            days_before-one d.year,
            ap (days_before d.year) month,
            one,
            same,
          ))
    | inr other ↦
        let same : d.month - 1 + 1 ≡ d.month = ground (arith, v.has_month) in
        let one : d.day ≡ 1 = ground (arith, v.has_day) in
        let low : 1 ≤ d.month - 1 = ground (arith, v.has_month) in
        let high : d.month - 1 < 12 = ground (arith, v.has_month) in
        simp other (
          omega (
            arith,
            days_before-suc d.year (d.month - 1) low high,
            ap (days_before d.year) same,
            one,
            same,
          ))
  ])
]

previous_day-IsValid : (d : CalendarDate) → IsValid d → IsValid (previous_day d)
unfolding previous_day
previous_day-IsValid d v = elim (Bool-cases (ltb 1 d.day)) [
  | inl later ↦ simp later (record { has_month = v.has_month; has_day = ground (arith, v.has_day) })
  | inr first ↦ simp first (elim (Bool-cases (d.month == 1)) [
    | inl january ↦ simp january (record {
      has_month = omega arith;
      has_day = ground (arith, days_in_month_bounds (d.year - 1) 12, december (d.year - 1));
    })
    | inr other ↦ simp other (record {
      has_month = ground (arith, v.has_month);
      has_day = ground (arith, days_in_month_bounds d.year (d.month - 1));
    })
  ])
]

days_later-number :
    (n : ℕ) (d : CalendarDate) → IsValid d → day_number (days_later n d) ≡ day_number d + n
unfolding days_later
days_later-number zero d v = omega arith
days_later-number (suc n) d v =
    omega
      (arith, next_day-number (days_later n d) (days_later-IsValid n d v), days_later-number n d v)

days_earlier-number :
    (n : ℕ) (d : CalendarDate)
    → IsValid d
    → n < day_number d
    → IsValid (days_earlier n d) × (day_number (days_earlier n d) + n ≡ day_number d)
unfolding days_earlier
days_earlier-number zero d v h = (v, omega arith)
days_earlier-number (suc n) d v h =
    let before = previous_day-number d v (omega arith) in
    let rest =
      days_earlier-number n (previous_day d) (previous_day-IsValid d v) (omega (arith, before)) in
    (rest.0, omega (arith, rest.1, before))

-- A shift by a number of days, forward or back, leads to the day of the calendar with the number that is as many
-- greater or smaller.
pub shift-number :
    (d : CalendarDate) (days : ℤ)
    → IsValid d
    → 100 ≤ d.year
    → neg_part days < day_number d
    → IsValid (shift d days)
      × (day_number (shift d days) + neg_part days ≡ day_number d + pos_part days)
shift-number d (pos n) v h k =
    rw (shift-pos n d v h) (days_later-IsValid n d v, omega (arith, days_later-number n d v))
shift-number d (negsuc n) v h k =
    let back = days_earlier-number (suc n) d v k in
    let same : shift d (negsuc n) ≡ days_earlier (suc n) d =
      ap (shift d) (ground arith) ∙ shift-neg (suc n) d v h in
    (subst IsValid (sym same) back.0, ap (λ e. day_number e + suc n) same ∙ back.1 ∙ omega arith)
