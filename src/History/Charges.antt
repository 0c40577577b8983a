-- ===== src/History/Charges.antt =====
-- frontend/src/entities/user/ui/ChargeHistoryModal/ChargeHistoryModal.tsx
use Prim.Native.Nat.{Ordering}
use Prim.Native.String
use vpnshiki.Prelude.{
  ℕ, ◌%◌, String, Bool, ◌&&◌, Option, none, some, List, [], ◌∷◌, ◌++◌, map, ◌==◌, leb,
  if◌then◌else◌, length,
}
use vpnshiki.Prelude.Int.{ℤ}
use vpnshiki.Prelude.Sorting.{sort, or_else}
use vpnshiki.Text.{Text, codes, decimal}
use vpnshiki.Money.{cents, to_fixed, format_money}
use vpnshiki.Locale.{Locale, DateParts}
use vpnshiki.Entities.Users.{UserCharge, DailyChargeKind, tarification, additional_profiles}
use vpnshiki.History.Monthly.{MonthlyHistoryRow, MonthlyHistoryGroup, drop_year_mark, capitalize}
use vpnshiki.History.Grouping.{group_by, sum}

unfoldable pub format_charge_count : ℕ → Text
unfolding decimal
format_charge_count value =
    let last_two_digits = value % 100 in
    let last_digit = value % 10 in
    if leb 11 last_two_digits && leb last_two_digits 14
    then decimal value ++ codes " списаний"
    else if last_digit == 1
    then decimal value ++ codes " списание"
    else if leb 2 last_digit && leb last_digit 4
    then decimal value ++ codes " списания"
    else decimal value ++ codes " списаний"

infixr 65 ◌<>◌
abbrev ◌<>◌ : String → String → String
s <> t = String.◌++◌ s t

abbrev month_of : DateParts → String
month_of parts = parts.year <> "-" <> parts.month

abbrev day_of : DateParts → String
day_of parts = parts.year <> "-" <> parts.month <> "-" <> parts.day

abbrev or_zero : Option ℕ → ℕ
or_zero none = 0
or_zero (some n) = n

unfoldable pub charge_description : UserCharge → Text
unfolding decimal
charge_description charge = elim charge.kind [
  | additional_profiles ↦
      codes "Доп. профили · " ++ decimal (or_zero charge.additional_profiles_count) ++ codes " шт."
  | tarification ↦ codes "Тарификация"
]

-- `left.kind !== right.kind` puts the additional profiles first.
abbrev pub by_kind : DailyChargeKind → DailyChargeKind → Ordering
by_kind additional_profiles tarification = Ordering.lt
by_kind tarification additional_profiles = Ordering.gt
by_kind _ _ = Ordering.eq

abbrev pub charge_cents : UserCharge → Option ℤ
charge_cents charge = cents (codes charge.amount)

module _ (locale : Locale) where
  unfoldable pub get_month_key : String → String
  get_month_key created_at = month_of (locale.moscow_parts created_at)

  unfoldable pub get_day_key : String → String
  get_day_key created_at = day_of (locale.moscow_parts created_at)

  -- The comparator of `orderedCharges`.
  unfoldable pub compare_charges : UserCharge → UserCharge → Ordering
  unfolding get_day_key
  compare_charges left right =
      or_else (locale.compare (get_day_key right.created_at) (get_day_key left.created_at))
        (or_else (by_kind left.kind right.kind) (locale.compare right.created_at left.created_at))

  unfoldable pub charge_months : List UserCharge → List (String × List UserCharge)
  unfolding get_month_key compare_charges group_by sort
  charge_months charges =
      group_by (λ charge. get_month_key charge.created_at) (sort compare_charges charges)

  -- `monthCharges[0].created_at`: no group is empty.
  abbrev charges_label : List UserCharge → Text
  charges_label [] = []
  charges_label (charge ∷ _) =
      capitalize locale.to_upper (drop_year_mark (locale.month_year charge.created_at))

  charge_row : Bool → UserCharge → MonthlyHistoryRow
  unfolding charge_description format_money
  charge_row include_tariff_plan charge = record {
    id = charge.id;
    date_time = charge.created_at;
    date_label = locale.day_month charge.created_at;
    secondary_description =
        if include_tariff_plan then some (codes charge.tariff_plan_name) else none;
    description = some (charge_description charge);
    amount = codes "−" ++ format_money locale.currency (codes charge.amount);
    breakdown_amounts = none;
    total_amount = none;
  }

  charge_group : Bool → String × List UserCharge → MonthlyHistoryGroup
  unfolding charge_row sum cents to_fixed format_money format_charge_count drop_year_mark
  charge_group include_tariff_plan (key, charges) = record {
    key = key;
    label = charges_label charges;
    count_label = format_charge_count (length charges);
    total = codes "−" ++ format_money locale.currency (to_fixed (sum charge_cents charges));
    rows = map (charge_row include_tariff_plan) charges;
  }

  unfoldable pub group_charges : List UserCharge → Bool → List MonthlyHistoryGroup
  unfolding charge_months charge_group
  group_charges charges include_tariff_plan =
      map (charge_group include_tariff_plan) (charge_months charges)

-- `fetchedTotal`
unfoldable pub fetched_charges : List UserCharge → Option ℤ
unfolding sum cents
fetched_charges charges = sum charge_cents charges
