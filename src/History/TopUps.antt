-- ===== src/History/TopUps.antt =====
-- frontend/src/entities/user/ui/TopUpHistoryModal/TopUpHistoryModal.tsx
use vpnshiki.Prelude.{
  ℕ, ◌%◌, String, ◌&&◌, Option, none, List, [], ◌∷◌, ◌++◌, map, ◌==◌, leb, if◌then◌else◌, length,
}
use vpnshiki.Prelude.Int.{ℤ}
use vpnshiki.Text.{Text, codes, decimal}
use vpnshiki.Money.{cents, to_fixed, format_money}
use vpnshiki.Locale.{Locale}
use vpnshiki.Entities.Users.{UserTopUp}
use vpnshiki.History.Monthly.{MonthlyHistoryRow, MonthlyHistoryGroup, drop_year_mark, capitalize}
use vpnshiki.History.Grouping.{group_by, sum}
use vpnshiki.History.Charges.{get_month_key}

unfoldable pub format_top_up_count : ℕ → Text
unfolding decimal
format_top_up_count value =
    let last_two_digits = value % 100 in
    let last_digit = value % 10 in
    if leb 11 last_two_digits && leb last_two_digits 14
    then decimal value ++ codes " пополнений"
    else if last_digit == 1
    then decimal value ++ codes " пополнение"
    else if leb 2 last_digit && leb last_digit 4
    then decimal value ++ codes " пополнения"
    else decimal value ++ codes " пополнений"

abbrev pub top_up_cents : UserTopUp → Option ℤ
top_up_cents top_up = cents (codes top_up.amount)

module _ (locale : Locale) where
  unfoldable pub top_up_months : List UserTopUp → List (String × List UserTopUp)
  unfolding get_month_key group_by
  top_up_months top_ups = group_by (λ top_up. get_month_key locale top_up.created_at) top_ups

  abbrev top_ups_label : List UserTopUp → Text
  top_ups_label [] = []
  top_ups_label (top_up ∷ _) =
      capitalize locale.to_upper (drop_year_mark (locale.month_year top_up.created_at))

  top_up_row : UserTopUp → MonthlyHistoryRow
  unfolding format_money
  top_up_row top_up = record {
    id = top_up.id;
    date_time = top_up.created_at;
    date_label = locale.day_month top_up.created_at;
    secondary_description = none;
    description = none;
    amount = codes "+" ++ format_money locale.currency (codes top_up.amount);
    breakdown_amounts = none;
    total_amount = none;
  }

  top_up_group : String × List UserTopUp → MonthlyHistoryGroup
  unfolding top_up_row sum cents to_fixed format_money format_top_up_count drop_year_mark
  top_up_group (key, top_ups) = record {
    key = key;
    label = top_ups_label top_ups;
    count_label = format_top_up_count (length top_ups);
    total = codes "+" ++ format_money locale.currency (to_fixed (sum top_up_cents top_ups));
    rows = map top_up_row top_ups;
  }

  unfoldable pub group_top_ups : List UserTopUp → List MonthlyHistoryGroup
  unfolding top_up_months top_up_group
  group_top_ups top_ups = map top_up_group (top_up_months top_ups)

unfoldable pub fetched_top_ups : List UserTopUp → Option ℤ
unfolding sum cents
fetched_top_ups top_ups = sum top_up_cents top_ups
