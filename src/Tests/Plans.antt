-- ===== src/Tests/Plans.antt =====
-- The calendar, the charge of a day and the schedule of the plans.
use Prim.Native.Nat.{compare, Ordering}
use vpnshiki.TariffPlans.Page
use vpnshiki.TariffPlans.Page.{
  edit_clicked, edit_submitted, ended, IsAllowed, PlansEvent, plans_run,
  plans_run-initial-IsAllowed,
}
use vpnshiki.Api.{unexpected}
use vpnshiki.Prelude.{
  ℕ, none, some, [], ◌∷◌, true, refl, List, Option, String, ◌*◌, arith, get_elem?, ◌≤◌, ◌<◌, ◌+◌,
  ◌≡◌,
}
use vpnshiki.TariffPlans.Calendar.{
  CalendarDate, days_in_month, add_calendar_days, get_days_in_moscow_month, shift, parse_date,
}
use vpnshiki.Prelude.Sorting.{IsConsistent}
use vpnshiki.TariffPlans.Calendar.Laws.{IsValid}
use vpnshiki.TariffPlans.Calendar.DayNumber.{day_number, days_before, leap_years}
use vpnshiki.TariffPlans.Calendar.Printed.{add_calendar_days_lem}
use vpnshiki.TariffPlans.Schedule.Laws.{PreviewEnd, get_preview_end_date-PreviewEnd}
use vpnshiki.Text.{Text, codes}
use vpnshiki.TariffPlans.Schedule.{get_preview_end_date}
use vpnshiki.Entities.TariffPlans.{TariffPlan, TariffPlanStatus}
use vpnshiki.TariffPlans.Charge.{daily_kopecks, daily_kopecks_bounds}
use vpnshiki.Prelude.Int.{negsuc}
use vpnshiki.TariffPlans.Calendar.Month.{get_days_in_moscow_month_lem}

abbrev leap_day : CalendarDate
leap_day = record { year = 2028; month = 2; day = 29 }

in_february : 29 ≤ days_in_month 2028 2
unfolding days_in_month
in_february = omega arith

leap_day-IsValid : IsValid leap_day
leap_day-IsValid = record {
  has_month = (omega arith, omega arith);
  has_day = (omega arith, in_february);
}

across_years :
    shift (record { year = 2026; month = 1; day = 1 }) (negsuc 0)
    ≡ record { year = 2025; month = 12; day = 31 }
unfolding shift
across_years = refl

february : get_days_in_moscow_month (codes "2028-02-10") ≡ some 29
unfolding get_days_in_moscow_month
february = refl

leap_day-reads : parse_date (codes "2028-02-29") ≡ some leap_day
unfolding parse_date
leap_day-reads = refl

back_over_new_year : add_calendar_days (codes "2028-02-29") (negsuc 59) ≡ codes "2027-12-31"
unfolding add_calendar_days
back_over_new_year = refl

days_left : 60 < day_number leap_day
unfolding day_number leap_years days_before
days_left = omega arith

add_calendar_days_lem_example :
    (e : CalendarDate) × (parse_date (add_calendar_days (codes "2028-02-29") (negsuc 59)) ≡ some e)
    × IsValid e
    × (day_number e + 60 ≡ day_number leap_day + 0)
add_calendar_days_lem_example =
    add_calendar_days_lem (codes "2028-02-29") leap_day (negsuc 59) leap_day-reads leap_day-IsValid
      (omega arith) days_left

old_february : get_days_in_moscow_month (codes "0000-02-10") ≡ some 28
unfolding get_days_in_moscow_month
old_february = refl

daily_kopecks_bounds_example :
    let shares = 30 * 7 in
    let charged = daily_kopecks 1000000 30 7 * shares in
    (2 * charged ≤ 2 * 1000000 + shares) × (2 * 1000000 ≤ 2 * charged + shares)
daily_kopecks_bounds_example = daily_kopecks_bounds 1000000 30 7 (omega arith) (omega arith)

abbrev plan : String → Text → TariffPlan
plan id start = record {
  id = id;
  name = "TP";
  monthly_amount = "10000.00";
  start_date = start;
  end_date = none;
  status = TariffPlanStatus.scheduled;
  is_editable = true;
  created_at = "2026-05-31T09:00:00Z";
  updated_at = "2026-05-31T09:00:00Z";
}

abbrev plans : List TariffPlan
plans = plan "b" (codes "2026-08-01") ∷ plan "a" (codes "2026-07-01") ∷ []

-- By the last digit of the month.
abbrev get_or_zero : Option ℕ → ℕ
get_or_zero none = 0
get_or_zero (some n) = n

abbrev month_digit : Text → ℕ
month_digit s = get_or_zero (get_elem? s 6)

abbrev by_month : Text → Text → Ordering
by_month s t = compare (month_digit s) (month_digit t)

by_month-IsConsistent : IsConsistent by_month
by_month-IsConsistent = record { flips = λ x y. ground arith; trans = λ x y z h k. ground arith }

ends :
    get_preview_end_date by_month (codes "2026-06-15") plans (some "a") ≡ some (codes "2026-07-31")
unfolding get_preview_end_date
ends = refl

get_preview_end_date-PreviewEnd_example :
    PreviewEnd by_month
      (codes "2026-06-15")
      (some "a")
      plans
      (get_preview_end_date by_month (codes "2026-06-15") plans (some "a"))
get_preview_end_date-PreviewEnd_example =
    get_preview_end_date-PreviewEnd by_month b'2' (codes "026-06-15") (some "a") plans
      by_month-IsConsistent

abbrev plan_events : List PlansEvent
plan_events =
    edit_clicked (plan "a" (codes "2026-07-01"))
    ∷ edit_submitted (record { monthly_amount = "100.00"; start_date = codes "2026-08-01" })
    ∷ ended 0 (some unexpected)
    ∷ []

plans_run-initial-IsAllowed_example : IsAllowed (plans_run Page.initial plan_events)
plans_run-initial-IsAllowed_example = plans_run-initial-IsAllowed plan_events

abbrev winter_day : CalendarDate
winter_day = record { year = 2026; month = 12; day = 10 }

winter_day-reads : parse_date (codes "2026-12-10") ≡ some winter_day
unfolding parse_date
winter_day-reads = refl

get_days_in_moscow_month_lem_example :
    get_days_in_moscow_month (codes "2026-12-10") ≡ some (days_in_month 2026 12)
get_days_in_moscow_month_lem_example =
    get_days_in_moscow_month_lem (codes "2026-12-10") winter_day winter_day-reads (omega arith)
      (omega arith)
