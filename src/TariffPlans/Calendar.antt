-- ===== src/TariffPlans/Calendar.antt =====
-- frontend/src/entities/tariffPlan/utils.ts: calendar dates. `Date.UTC` and the getters of a `Date` are
-- written out as the Gregorian calendar of the language, a day at a time.
use vpnshiki.Prelude.{
  ℕ, none, some, [], ◌∷◌, zero, suc, true, false, inl, inr, refl, Bool, List, Option, if◌then◌else◌,
  ◌*◌, ltb, ◌%◌, ◌++◌, ◌+◌, ◌==◌, ◌&&◌, ◌-◌, ◌||◌, not, ◌/◌,
}
use vpnshiki.Text.{Text, decimal, codes, is_digit, pad_two}
use vpnshiki.Prelude.Int.{ℤ, ◌+ℤ◌, pos, sub_ℕ, negsuc}
use mathlib.Core.List.{reverse}
pub mod Laws
pub mod Month
pub mod DayNumber
pub mod Printed

pub record CalendarDate : Type 0 where
  pub year : ℕ
  pub month : ℕ
  pub day : ℕ

abbrev pub is_leap : ℕ → Bool
is_leap year = year % 4 == 0 && (not (year % 100 == 0) || year % 400 == 0)

unfoldable pub days_in_month : ℕ → ℕ → ℕ
days_in_month year month =
    if month == 2
    then (if is_leap year then 29 else 28)
    else if month == 4 || month == 6 || month == 9 || month == 11
    then 30
    else 31

unfoldable pub next_day : CalendarDate → CalendarDate
unfolding days_in_month
next_day d =
    if ltb d.day (days_in_month d.year d.month)
    then record d { day = d.day + 1 }
    else if d.month == 12
    then record { year = d.year + 1; month = 1; day = 1 }
    else record { year = d.year; month = d.month + 1; day = 1 }

unfoldable pub previous_day : CalendarDate → CalendarDate
unfolding days_in_month
previous_day d =
    if ltb 1 d.day
    then record d { day = d.day - 1 }
    else if d.month == 1
    then record { year = d.year - 1; month = 12; day = 31 }
    else record { year = d.year; month = d.month - 1; day = days_in_month d.year (d.month - 1) }

unfoldable pub days_later : ℕ → CalendarDate → CalendarDate
unfolding next_day
days_later zero d = d
days_later (suc n) d = next_day (days_later n d)

unfoldable pub days_earlier : ℕ → CalendarDate → CalendarDate
unfolding previous_day
days_earlier zero d = d
days_earlier (suc n) d = days_earlier n (previous_day d)

-- `new Date(Date.UTC(year, month - 1, 1 + offset))`; a month out of range counts into other years.
abbrev first_day : ℕ → ℕ → CalendarDate
first_day year month =
    let months = year * 12 + month - 1 in
    record { year = months / 12; month = months % 12 + 1; day = 1 }

abbrev offset_date : ℤ → CalendarDate → CalendarDate
offset_date (pos n) d = days_later n d
offset_date (negsuc n) d = days_earlier (suc n) d

-- `Date.UTC` takes the years from 0 to 99 for those from 1900 to 1999.
abbrev utc_year : ℕ → ℕ
utc_year year = if ltb year 100 then year + 1900 else year

-- `new Date(Date.UTC(year, month - 1, day + days))`
unfoldable pub shift : CalendarDate → ℤ → CalendarDate
unfolding days_later days_earlier ◌+ℤ◌
shift d days = offset_date (sub_ℕ d.day 1 +ℤ days) (first_day (utc_year d.year) d.month)

-- `value.split('-')`, its first three parts, and '' for those that are missing.
split_from : Text → Text → List Text
split_from part [] = reverse part ∷ []
split_from part (c ∷ s) = elim (c == b'-') [
  | true ↦ reverse part ∷ split_from [] s
  | false ↦ split_from (c ∷ part) s
]

abbrev part_at : ℕ → List Text → Text
part_at i [] = []
part_at zero (p ∷ ps) = p
part_at (suc i) (p ∷ ps) = part_at i ps

pub record DateTexts : Type 0 where
  pub year : Text
  pub month : Text
  pub day : Text

unfoldable pub date_parts : Text → DateTexts
unfolding split_from
date_parts value =
    let parts = split_from [] value in
    record { year = part_at 0 parts; month = part_at 1 parts; day = part_at 2 parts }

-- `Number(part)` for a part of digits, and 0 for ''; `none` is NaN.
digits_from : ℕ → Text → Option ℕ
digits_from n [] = some n
digits_from n (c ∷ s) =
    let rest = digits_from (n * 10 + (c - b'0')) s in if is_digit c then rest else none

abbrev dated : Option ℕ → Option ℕ → Option ℕ → Option CalendarDate
dated (some year) (some month) (some day) = some (record { year = year; month = month; day = day })
dated _ _ _ = none

unfoldable pub parse_date : Text → Option CalendarDate
unfolding date_parts digits_from
parse_date value =
    let parts = date_parts value in
    dated (digits_from 0 parts.year) (digits_from 0 parts.month) (digits_from 0 parts.day)

unfoldable pub print_date : CalendarDate → Text
unfolding decimal pad_two
print_date d = decimal d.year ++ b'-' ∷ pad_two (decimal d.month) ++ b'-' ∷ pad_two (decimal d.day)

unfoldable pub add_calendar_days : Text → ℤ → Text
unfolding parse_date shift print_date
add_calendar_days value days = elim (parse_date value) [
  | none ↦ codes "NaN-NaN-NaN"
  | some d ↦ print_date (shift d days)
]

-- `new Date(Date.UTC(year, month, 0)).getUTCDate()`: the day before the first of the next month.
unfoldable pub get_days_in_moscow_month : Text → Option ℕ
unfolding parse_date shift
get_days_in_moscow_month moscow_date = elim (parse_date moscow_date) [
  | none ↦ none
  | some d ↦ some (shift (record { year = d.year; month = d.month + 1; day = 0 }) (pos 0)).day
]

-- `/^\d{4}-\d{2}-\d{2}$/`
abbrev pub is_date_form : Text → Bool
is_date_form (a ∷ b ∷ c ∷ d ∷ s ∷ e ∷ f ∷ t ∷ g ∷ h ∷ []) =
    is_digit a
    && is_digit b
    && is_digit c
    && is_digit d
    && s == b'-'
    && is_digit e
    && is_digit f
    && t == b'-'
    && is_digit g
    && is_digit h
is_date_form _ = false

abbrev dotted : DateTexts → Text
dotted parts = parts.day ++ b'.' ∷ parts.month ++ b'.' ∷ parts.year

unfoldable pub format_tariff_plan_name : Text → Text
unfolding date_parts
format_tariff_plan_name start_date =
    if is_date_form start_date then codes "TP_" ++ dotted (date_parts start_date) else codes "TP_—"

unfoldable pub format_calendar_date : Option Text → Text
unfolding date_parts
format_calendar_date none = codes "Бессрочно"
format_calendar_date (some []) = codes "Бессрочно"
format_calendar_date (some (c ∷ s)) = dotted (date_parts (c ∷ s))
