-- ===== src/TariffPlans/Calendar/Laws.antt =====
-- The calendar of the plans: shifting a date back and forth.
use Prim.Native.Nat.{zero}
use vpnshiki.Prelude.{
  refl, ℕ, inl, inr, ◌+◌, ◌≤◌, Bool-cases, arith, ◌≡◌, ltb, ◌==◌, ◌<◌, ◌≢◌, ap, suc, ◌*◌, ◌∙◌, ◌-◌,
  ◌/◌, ◌%◌, leb, sym,
}
use vpnshiki.TariffPlans.Calendar.{
  CalendarDate, days_in_month, next_day, previous_day, days_earlier, days_later, first_day, shift,
  offset_date, utc_year,
}
use vpnshiki.Prelude.Int.{pos, ◌+ℤ◌, neg, ℤ, negsuc, sub_ℕ}

-- A day of the calendar.
pub record IsValid (d : CalendarDate) : Type 0 where
  pub has_month : (1 ≤ d.month) × (d.month ≤ 12)
  pub has_day : (1 ≤ d.day) × (d.day ≤ days_in_month d.year d.month)

-- No month is shorter than 28 days or longer than 31.
pub days_in_month_bounds : (y m : ℕ) → (28 ≤ days_in_month y m) × (days_in_month y m ≤ 31)
unfolding days_in_month
days_in_month_bounds y m = (ground arith, ground arith)

pub next_day-IsValid : (d : CalendarDate) → IsValid d → IsValid (next_day d)
unfolding next_day
next_day-IsValid d v =
    let b = days_in_month_bounds d.year (d.month + 1) in
    elim (Bool-cases (ltb d.day (days_in_month d.year d.month))) [
      | inl within ↦
          simp within (record { has_month = v.has_month; has_day = ground (arith, v.has_day) })
      | inr last ↦ simp last (elim (Bool-cases (d.month == 12)) [
        | inl december ↦ simp december (record {
          has_month = omega arith;
          has_day = ground (arith, days_in_month_bounds (d.year + 1) 1);
        })
        | inr other ↦
            simp other
              (record { has_month = ground (arith, v.has_month); has_day = ground (arith, b) })
      ])
    ]

abbrev pub date : ℕ → ℕ → ℕ → CalendarDate
date y m k = record { year = y; month = m; day = k }

next_within : (y m k : ℕ) → k < days_in_month y m → next_day (date y m k) ≡ date y m (k + 1)
unfolding next_day
next_within y m k h = ground arith

next_month : (y m k : ℕ) → days_in_month y m ≤ k → m ≢ 12 → next_day (date y m k) ≡ date y (m + 1) 1
unfolding next_day
next_month y m k h n = ground arith

next_year : (y k : ℕ) → 31 ≤ k → next_day (date y 12 k) ≡ date (y + 1) 1 1
unfolding next_day
next_year y k h = ground arith

previous_within : (y m k : ℕ) → 1 ≤ k → previous_day (date y m (k + 1)) ≡ date y m k
unfolding previous_day
previous_within y m k h = ground arith

pub previous_month :
    (y m : ℕ) → 1 ≤ m → previous_day (date y (m + 1) 1) ≡ date y m (days_in_month y m)
unfolding previous_day
previous_month y m h = ground arith

pub previous_year : (y : ℕ) → previous_day (date (y + 1) 1 1) ≡ date y 12 31
unfolding previous_day
previous_year y = ground arith

pub december_full : (y m k : ℕ) → m ≡ 12 → days_in_month y m ≤ k → k ≤ days_in_month y m → k ≡ 31
unfolding days_in_month
december_full y m k h low high = ground arith

previous_day-next_day : (d : CalendarDate) → IsValid d → previous_day (next_day d) ≡ d
previous_day-next_day d v =
    let y = d.year in
    let m = d.month in
    let k = d.day in
    elim (Bool-cases (ltb k (days_in_month y m))) [
      | inl within ↦
          ap previous_day (next_within y m k (ground arith)) ∙ previous_within y m k v.has_day.0
      | inr last ↦ elim (Bool-cases (m == 12)) [
        | inl december ↦
            let twelve : m ≡ 12 = ground arith in
            let full : k ≡ 31 = december_full y m k twelve (ground arith) v.has_day.1 in
            ap (λ a. previous_day (next_day (date y a k))) twelve
            ∙ ap previous_day (next_year y k (omega (arith, full)))
            ∙ previous_year y
            ∙ (λ i. date y (sym twelve i) (sym full i))
        | inr other ↦
            let full : days_in_month y m ≡ k = ground (arith, v.has_day) in
            ap previous_day (next_month y m k (ground arith) (λ e. ground arith))
            ∙ previous_month y m v.has_month.0
            ∙ ap (date y m) full
      ]
    ]

pub days_later-first :
    (y m k : ℕ) → k < days_in_month y m → days_later k (date y m 1) ≡ date y m (k + 1)
unfolding days_later
days_later-first y m zero h = refl
days_later-first y m (suc k) h =
    let same : k + 1 + 1 ≡ suc k + 1 = omega arith in
    ap next_day (days_later-first y m k (omega arith))
    ∙ next_within y m (k + 1) (omega arith)
    ∙ ap (date y m) same

days_later-add : (a b : ℕ) (d : CalendarDate) → days_later (a + b) d ≡ days_later a (days_later b d)
unfolding days_later
days_later-add zero b d = let same : 0 + b ≡ b = omega arith in ap (λ j. days_later j d) same
days_later-add (suc a) b d =
    let same : suc a + b ≡ suc (a + b) = omega arith in
    ap (λ j. days_later j d) same ∙ ap next_day (days_later-add a b d)

pub days_later-IsValid : (n : ℕ) (d : CalendarDate) → IsValid d → IsValid (days_later n d)
unfolding days_later
days_later-IsValid zero d v = v
days_later-IsValid (suc n) d v = next_day-IsValid (days_later n d) (days_later-IsValid n d v)

-- Days forward and fewer or more of them back.
days_earlier-later_le :
    (n k : ℕ) (d : CalendarDate)
    → IsValid d
    → days_earlier n (days_later (n + k) d) ≡ days_later k d
unfolding days_earlier days_later
days_earlier-later_le zero k d v =
    let same : 0 + k ≡ k = omega arith in ap (λ j. days_later j d) same
days_earlier-later_le (suc n) k d v =
    let same : suc n + k ≡ suc (n + k) = omega arith in
    ap (λ j. days_earlier (suc n) (days_later j d)) same
    ∙ ap (days_earlier n)
        (previous_day-next_day (days_later (n + k) d) (days_later-IsValid (n + k) d v))
    ∙ days_earlier-later_le n k d v

days_earlier-add :
    (a b : ℕ) (d : CalendarDate) → days_earlier (a + b) d ≡ days_earlier b (days_earlier a d)
unfolding days_earlier
days_earlier-add zero b d = let same : 0 + b ≡ b = omega arith in ap (λ j. days_earlier j d) same
days_earlier-add (suc a) b d =
    let same : suc a + b ≡ suc (a + b) = omega arith in
    ap (λ j. days_earlier j d) same ∙ days_earlier-add a b (previous_day d)

pub first_day_of : (y m : ℕ) → 1 ≤ m → m ≤ 12 → first_day y m ≡ date y m 1
first_day_of y m low high =
    let year : (y * 12 + m - 1) / 12 ≡ y = omega arith in
    let month : (y * 12 + m - 1) % 12 + 1 ≡ m = omega arith in
    ap (λ a. date a ((y * 12 + m - 1) % 12 + 1) 1) year ∙ ap (λ b. date y b 1) month

days_later-start :
    (d : CalendarDate) → IsValid d → days_later (d.day - 1) (date d.year d.month 1) ≡ d
days_later-start d v =
    days_later-first d.year d.month (d.day - 1) (omega (arith, v.has_day.0, v.has_day.1))
    ∙ ap (date d.year d.month) (omega (arith, v.has_day.0))

shift_of_offset :
    (d : CalendarDate) (days offset : ℤ)
    → IsValid d
    → 100 ≤ d.year
    → sub_ℕ d.day 1 +ℤ days ≡ offset
    → shift d days ≡ offset_date offset (date d.year d.month 1)
unfolding shift
shift_of_offset d days offset v h e =
    let same : utc_year d.year ≡ d.year = ground arith in
    ap (λ o. offset_date o (first_day (utc_year d.year) d.month)) e
    ∙ ap (λ y. offset_date offset (first_day y d.month)) same
    ∙ ap (offset_date offset) (first_day_of d.year d.month v.has_month.0 v.has_month.1)

pub shift-pos :
    (n : ℕ) (d : CalendarDate) → IsValid d → 100 ≤ d.year → shift d (pos n) ≡ days_later n d
unfolding ◌+ℤ◌
shift-pos n d v h =
    shift_of_offset d (pos n) (pos (n + (d.day - 1))) v h (ground (arith, v.has_day.0))
    ∙ days_later-add n (d.day - 1) (date d.year d.month 1)
    ∙ ap (days_later n) (days_later-start d v)

first-IsValid : (d : CalendarDate) → IsValid d → IsValid (date d.year d.month 1)
first-IsValid d v = record {
  has_month = v.has_month;
  has_day = (omega arith, omega (arith, v.has_day.0, v.has_day.1));
}

back_to_start : (d : CalendarDate) → IsValid d → days_earlier (d.day - 1) d ≡ date d.year d.month 1
unfolding days_later
back_to_start d v =
    let first = date d.year d.month 1 in
    let k = d.day - 1 in
    let zero_more : k ≡ k + 0 = omega arith in
    ap (days_earlier k) (sym (days_later-start d v))
    ∙ ap (λ j. days_earlier k (days_later j first)) zero_more
    ∙ days_earlier-later_le k 0 first (first-IsValid d v)

pub shift-neg :
    (n : ℕ) (d : CalendarDate) → IsValid d → 100 ≤ d.year → shift d (neg (pos n)) ≡ days_earlier n d
unfolding ◌+ℤ◌
shift-neg n d v h =
    let first = date d.year d.month 1 in
    let k = d.day - 1 in
    elim (Bool-cases (leb n k)) [
      | inl near ↦
          let all : n + (k - n) ≡ k = ground arith in
          shift_of_offset d (neg (pos n)) (pos (k - n)) v h (ground (arith, v.has_day.0))
          ∙ sym (days_earlier-later_le n (k - n) first (first-IsValid d v))
          ∙ ap (λ j. days_earlier n (days_later j first)) all
          ∙ ap (days_earlier n) (days_later-start d v)
      | inr far ↦
          let all : k + suc (n - k - 1) ≡ n = ground arith in
          shift_of_offset d (neg (pos n)) (negsuc (n - k - 1)) v h (ground (arith, v.has_day.0))
          ∙ ap (days_earlier (suc (n - k - 1))) (sym (back_to_start d v))
          ∙ sym (days_earlier-add k (suc (n - k - 1)) d)
          ∙ ap (λ j. days_earlier j d) all
    ]

-- The day before has a day after, from the year 1 on.
pub next_day-previous_day :
    (d : CalendarDate) → IsValid d → 1 ≤ d.year → next_day (previous_day d) ≡ d
next_day-previous_day d v h =
    let y = d.year in
    let m = d.month in
    let k = d.day in
    elim (Bool-cases (ltb 1 k)) [
      | inl later ↦
          let low : 1 ≤ k - 1 = ground arith in
          let back : k - 1 + 1 ≡ k = ground arith in
          ap (λ j. next_day (previous_day (date y m j))) (sym back)
          ∙ ap next_day (previous_within y m (k - 1) low)
          ∙ next_within y m (k - 1) (omega (arith, v.has_day.1, low))
          ∙ ap (date y m) back
      | inr first ↦
          let one : k ≡ 1 = ground (arith, v.has_day.0) in
          elim (Bool-cases (m == 1)) [
            | inl january ↦
                let month : m ≡ 1 = ground arith in
                let year : y - 1 + 1 ≡ y = omega (arith, h) in
                (λ i. next_day (previous_day (date (sym year i) (month i) (one i))))
                ∙ ap next_day (previous_year (y - 1))
                ∙ next_year (y - 1) 31 (omega arith)
                ∙ (λ i. date (year i) (sym month i) (sym one i))
            | inr other ↦
                let month : m - 1 + 1 ≡ m = ground (arith, v.has_month.0) in
                (λ i. next_day (previous_day (date y (sym month i) (one i))))
                ∙ ap next_day (previous_month y (m - 1) (ground (arith, v.has_month.0)))
                ∙ next_month y (m - 1) (days_in_month y (m - 1)) (omega arith)
                    (λ e. omega (arith, v.has_month.1, e))
                ∙ (λ i. date y (month i) (sym one i))
          ]
    ]
