-- ===== src/Tests/Fixtures.antt =====
-- A locale, and entries of two months.
use Prim.Native.Nat.{compare}
use vpnshiki.Prelude.{ℕ, some, [], ◌∷◌, List, String, arith, if◌then◌else◌, str_eq, ◌||◌}
use vpnshiki.Locale.{DateParts, Locale}
use vpnshiki.Prelude.Sorting.{IsConsistent}
use vpnshiki.Entities.Users.{
  DailyChargeKind, UserCharge, UserTopUp, tarification, additional_profiles,
}
use vpnshiki.History.Monthly.{MonthlyHistoryGroup}
use vpnshiki.Entities.TariffPlans.{TariffPlanBillingRun}
use vpnshiki.Text.{decimal, codes}

-- The month is told from the whole text.
abbrev may : DateParts
may = record { year = "2026"; month = "05"; day = "31" }

abbrev june : DateParts
june = record { year = "2026"; month = "06"; day = "01" }

abbrev pub rank : String → ℕ
rank s = if str_eq s "2026-06-01T09:00:00Z" || str_eq s "2026-06-01" then 1 else 0

abbrev pub locale : Locale
locale = record {
  currency = λ d. decimal d.digits;
  moscow_parts = λ s. if str_eq s "2026-06-01T09:00:00Z" then june else may;
  month_year = λ s. codes "май 2026 г.";
  day_month = λ s. codes "1 июня";
  to_upper = λ c. c ∷ [];
  to_lower = λ s. s;
  compare = λ x y. compare (rank x) (rank y);
}

pub locale-IsConsistent : IsConsistent locale.compare
locale-IsConsistent = record { flips = λ x y. ground arith; trans = λ x y z h k. ground arith }

abbrev pub charge : String → String → DailyChargeKind → UserCharge
charge amount created_at kind = record {
  id = "charge";
  amount = amount;
  tariff_plan_id = "plan";
  tariff_plan_name = "Июнь";
  kind = kind;
  additional_profiles_count = some 2;
  created_at = created_at;
}

abbrev pub charges : List UserCharge
charges =
    charge "10.50" "2026-05-31T09:00:00Z" tarification
    ∷ charge "3.25" "2026-06-01T09:00:00Z" tarification
    ∷ charge "1" "2026-06-01T09:00:00Z" additional_profiles
    ∷ []

abbrev top_up : String → String → UserTopUp
top_up amount created_at = record { id = "top_up"; amount = amount; created_at = created_at }

abbrev pub top_ups : List UserTopUp
top_ups = top_up "300.00" "2026-06-01T09:00:00Z" ∷ top_up "150.00" "2026-05-31T09:00:00Z" ∷ []

abbrev billing_run : String → String → TariffPlanBillingRun
billing_run date total = record {
  id = "run";
  billing_date = date;
  daily_charge = "5.00";
  active_users_count = 21;
  tarification_total = "100.00";
  additional_profiles_total = "5.00";
  total_charged = total;
}

abbrev pub runs : List TariffPlanBillingRun
runs = billing_run "2026-06-01" "105.00" ∷ billing_run "2026-05-31" "99.90" ∷ []

abbrev group : String → MonthlyHistoryGroup
group key = record { key = key; label = []; count_label = []; total = []; rows = [] }

abbrev pub groups : List MonthlyHistoryGroup
groups = group "2026-06" ∷ group "2026-05" ∷ []
