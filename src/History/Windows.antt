-- ===== src/History/Windows.antt =====
-- The windows of the three histories, ChargeHistoryModal.tsx and TopUpHistoryModal.tsx of frontend/src/entities/user/ui
-- and TariffPlanBillingHistoryModal.tsx of the plans: what is asked of the server, the summary and the months below it.
-- What the query library answers is a value of `HistoryQuery`: the data of an earlier answer may stand beside an error.
pub mod Empty
use mathlib.Core.Option
use vpnshiki.Prelude.{
  Bool, List, Option, String, none, [], false, some, if◌then◌else◌, length, true, ◌∷◌, ◌++◌, ◌==◌,
}
use vpnshiki.Locale.{Locale}
use vpnshiki.Text.{Text, decimal, codes}
use vpnshiki.Endpoints.{
  Endpoint, get_my_charges, get_my_top_ups, get_user_charges, get_user_top_ups,
}
use vpnshiki.History.Monthly.{MonthlyHistoryGroup}
use vpnshiki.Query.{QueryView, waits, offers_retry, says_empty, shows}
use vpnshiki.History.Charges.{group_charges, fetched_charges}
use vpnshiki.History.BillingRuns.{group_runs, runs_total}
use vpnshiki.History.TopUps.{group_top_ups, fetched_top_ups}
use vpnshiki.Money.{to_fixed, format_money}
use vpnshiki.Entities.TariffPlans.{TariffPlanBillingRun}
use vpnshiki.Entities.Users.{UserCharge, UserTopUp}
use vpnshiki.History.Grouping.{all_rows}

-- `useQuery`: `isLoading`, `isError` and `data`.
pub record HistoryQuery (A : Type 0) : Type 0 where
  pub is_loading : Bool
  pub is_error : Bool
  pub data_or_none : Option (List A)

pub data HistoryMode : Type 0 where
  self admin : HistoryMode

-- `historyQuery.data ?? []`
unfoldable pub fetched : {A : Type 0} → HistoryQuery A → List A
fetched q = elim q.data_or_none [ none ↦ [] | some rows ↦ rows ]

-- The value of an item of the summary above the months, a dash while it is not known.
abbrev value_or_dash : Option Text → Text
value_or_dash none = codes "—"
value_or_dash (some value) = value

pub record MonthlyHistoryColumnLabels : Type 0 where
  pub date : String
  pub secondary_description : Option String
  pub description : Option String
  pub breakdown_amounts : Option (String × String)
  pub amount : String
  pub total_amount : Option String

pub record HistoryWindow : Type 0 where
  pub title : String
  pub subject : String
  pub summary : List (String × Text)
  pub body : QueryView (List MonthlyHistoryGroup × MonthlyHistoryColumnLabels)

-- The four cases below the summary, in the order in which they are tried.
unfoldable pub window_body :
    {A : Type 0} (label message empty : String) (labels : MonthlyHistoryColumnLabels)
    → HistoryQuery A
    → List MonthlyHistoryGroup
    → QueryView (List MonthlyHistoryGroup × MonthlyHistoryColumnLabels)
window_body label message empty labels q groups =
    if q.is_loading
    then waits label
    else if q.is_error
    then offers_retry message
    else if length groups == 0
    then says_empty empty
    else shows (groups, labels)

-- `totalValue ? formatMoney(totalValue) : '—'`, where an empty text counts as none.
abbrev money_or_dash : (Text → Text) → Option Text → Text
money_or_dash money none = codes "—"
money_or_dash money (some []) = codes "—"
money_or_dash money (some (c ∷ s)) = money (c ∷ s)

-- `total ?? (historyQuery.data ? ... : null)`
abbrev total_value : Option String → Option Text → Option Text
total_value none fetched_total = fetched_total
total_value (some total) fetched_total = some (codes total)

abbrev months_text : List MonthlyHistoryGroup → Text
unfolding decimal
months_text groups = decimal (length groups) ++ codes " мес."

abbrev pub charge_labels : HistoryMode → MonthlyHistoryColumnLabels
charge_labels mode = record {
  date = "Дата";
  secondary_description = elim mode [ self ↦ none | admin ↦ some "Тариф" ];
  description = some "Тип";
  breakdown_amounts = none;
  amount = "Сумма";
  total_amount = none;
}

abbrev pub top_up_labels : MonthlyHistoryColumnLabels
top_up_labels = record {
  date = "Дата";
  secondary_description = none;
  description = none;
  breakdown_amounts = none;
  amount = "Сумма";
  total_amount = none;
}

abbrev pub billing_labels : MonthlyHistoryColumnLabels
billing_labels = record {
  date = "Дата";
  secondary_description = none;
  description = some "Пользователи";
  breakdown_amounts = some ("Общая тарификация", "Доп. профили");
  amount = "Тарификация";
  total_amount = some "Всего списано";
}

unfoldable pub includes_tariff_plan : HistoryMode → Bool
includes_tariff_plan self = false
includes_tariff_plan admin = true

unfoldable pub charges_request : HistoryMode → String → Endpoint
charges_request self id = get_my_charges
charges_request admin id = get_user_charges (codes id)

unfoldable pub top_ups_request : HistoryMode → String → Endpoint
top_ups_request self id = get_my_top_ups
top_ups_request admin id = get_user_top_ups (codes id)

module _ (locale : Locale) where
  unfoldable pub charge_window :
      HistoryMode
      → (name : String) (total : Option String) → HistoryQuery UserCharge
      → HistoryWindow
  unfolding fetched window_body group_charges fetched_charges includes_tariff_plan to_fixed
      format_money decimal
  charge_window mode name total q =
      let groups = group_charges locale (fetched q) (includes_tariff_plan mode) in
      record {
        title = "История списаний";
        subject = name;
        summary =
            (
              "Списано за всё время",
              money_or_dash (λ v. format_money locale.currency v)
                  (total_value total
                    (Option.map (λ charges. to_fixed (fetched_charges charges)) q.data_or_none)),
            )
            ∷ ("Период", value_or_dash (Option.map (λ _. months_text groups) q.data_or_none))
            ∷ [];
        body =
            window_body "Загружаем историю списаний" "Не удалось загрузить историю списаний."
              "У пользователя пока не было списаний." (charge_labels mode) q groups;
      }

  unfoldable pub top_up_window :
      (name : String) (total : Option String) → HistoryQuery UserTopUp → HistoryWindow
  unfolding fetched window_body group_top_ups fetched_top_ups to_fixed format_money decimal
  top_up_window name total q =
      let groups = group_top_ups locale (fetched q) in
      record {
        title = "История пополнений";
        subject = name;
        summary =
            (
              "Пополнено за всё время",
              money_or_dash (λ v. format_money locale.currency v)
                  (total_value total
                    (Option.map (λ top_ups. to_fixed (fetched_top_ups top_ups)) q.data_or_none)),
            )
            ∷ ("Период", value_or_dash (Option.map (λ _. months_text groups) q.data_or_none))
            ∷ [];
        body =
            window_body "Загружаем историю пополнений" "Не удалось загрузить историю пополнений."
              "У пользователя пока не было пополнений." top_up_labels q groups;
      }

  unfoldable pub billing_window :
      (name : String) → HistoryQuery TariffPlanBillingRun → HistoryWindow
  unfolding fetched window_body group_runs runs_total to_fixed format_money decimal
  billing_window name q =
      let groups = group_runs locale (fetched q) in
      record {
        title = "История списаний";
        subject = name;
        summary =
            (
              "Списано за всё время",
              value_or_dash (
                  Option.map (λ runs. format_money locale.currency (to_fixed (runs_total runs)))
                    q.data_or_none),
            )
            ∷ (
              "Расчётных дней",
              value_or_dash (Option.map (λ runs. decimal (length runs)) q.data_or_none),
            )
            ∷ [];
        body =
            window_body "Загружаем историю тарификации" "Не удалось загрузить историю тарификации."
              "По тарифному плану пока не было списаний." billing_labels q groups;
      }
