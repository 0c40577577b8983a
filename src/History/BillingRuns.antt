-- ===== src/History/BillingRuns.antt =====
-- frontend/src/pages/TariffPlansPage/components/TariffPlanBillingHistoryModal.
use Prim.Native.String
use vpnshiki.Prelude.{
  ℕ, zero, suc, ◌%◌, String, ◌&&◌, Option, none, some, List, [], ◌∷◌, ◌++◌, map, ◌==◌, leb,
  if◌then◌else◌, length,
}
use vpnshiki.Prelude.Int.{ℤ}
use vpnshiki.Text.{Text, codes, decimal}
use vpnshiki.Money.{cents, to_fixed, format_money}
use vpnshiki.Locale.{Locale}
use vpnshiki.Entities.TariffPlans.{TariffPlanBillingRun}
use vpnshiki.History.Monthly.{MonthlyHistoryRow, MonthlyHistoryGroup, drop_year_mark, capitalize}
use vpnshiki.History.Grouping.{group_by, sum}

unfoldable pub pluralize : ℕ → Text → Text → Text → Text
unfolding decimal
pluralize value one few many =
    let last_two_digits = value % 100 in
    let last_digit = value % 10 in
    if leb 11 last_two_digits && leb last_two_digits 14
    then decimal value ++ b' ' ∷ many
    else if last_digit == 1
    then decimal value ++ b' ' ∷ one
    else if leb 2 last_digit && leb last_digit 4
    then decimal value ++ b' ' ∷ few
    else decimal value ++ b' ' ∷ many

-- `slice(0, 7)`, on the characters of a date.
abbrev pub take_chars : ℕ → String → String
take_chars zero s = ""
take_chars (suc n) String.[] = ""
take_chars (suc n) (String.◌∷◌ c s) = String.◌∷◌ c (take_chars n s)

-- The text that `new Date` is given.
abbrev pub billing_date : String → String
billing_date value = String.◌++◌ value "T00:00:00+03:00"

unfoldable pub total_charge_in_cents : TariffPlanBillingRun → Option ℤ
unfolding cents
total_charge_in_cents run = cents (codes run.total_charged)

unfoldable pub run_months : List TariffPlanBillingRun → List (String × List TariffPlanBillingRun)
unfolding group_by
run_months runs = group_by (λ run. take_chars 7 run.billing_date) runs

-- The sum that the summary above the months shows.
unfoldable pub runs_total : List TariffPlanBillingRun → Option ℤ
unfolding sum total_charge_in_cents
runs_total runs = sum total_charge_in_cents runs

module _ (locale : Locale) where
  abbrev runs_label : List TariffPlanBillingRun → Text
  runs_label [] = []
  runs_label (run ∷ _) =
      capitalize locale.to_upper
        (drop_year_mark (locale.month_year (billing_date run.billing_date)))

  abbrev minus_money : Text → Text
  minus_money value = codes "−" ++ format_money locale.currency value

  run_row : TariffPlanBillingRun → MonthlyHistoryRow
  unfolding pluralize format_money to_fixed total_charge_in_cents
  run_row run = record {
    id = run.id;
    date_time = run.billing_date;
    date_label = locale.day_month (billing_date run.billing_date);
    secondary_description = none;
    description = some (
        pluralize run.active_users_count (codes "пользователь") (codes "пользователя")
          (codes "пользователей"));
    amount = minus_money (codes run.daily_charge);
    breakdown_amounts = some (
      minus_money (codes run.tarification_total),
      minus_money (codes run.additional_profiles_total),
    );
    total_amount = some (minus_money (to_fixed (total_charge_in_cents run)));
  }

  run_group : String × List TariffPlanBillingRun → MonthlyHistoryGroup
  unfolding run_row pluralize sum total_charge_in_cents to_fixed format_money drop_year_mark
  run_group (key, runs) = record {
    key = key;
    label = runs_label runs;
    count_label = pluralize (length runs) (codes "расчёт") (codes "расчёта") (codes "расчётов");
    total = minus_money (to_fixed (sum total_charge_in_cents runs));
    rows = map run_row runs;
  }

  unfoldable pub group_runs : List TariffPlanBillingRun → List MonthlyHistoryGroup
  unfolding run_months run_group
  group_runs runs = map run_group (run_months runs)
