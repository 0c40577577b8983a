-- ===== src/TopUps/Page.antt =====
-- frontend/src/pages/TopUpsPage/TopUpsPage.tsx with its OperationsView: the cards, the table and the row that is open.
use vpnshiki.Query.{
  shows, loading, failed, loaded, Query, QueryView, waits, offers_retry, says_empty,
}
use vpnshiki.Prelude.{
  length, ℕ, none, some, [], ◌∷◌, List, String, Option, if◌then◌else◌, str_eq, filter,
}
use vpnshiki.Ui.DataTable.{DataTableSort, DataTableSortDirection, sorted_rows}
use vpnshiki.Text.{Text, codes}
use vpnshiki.Money.{cents, to_fixed, ◌+?◌}
use vpnshiki.Entities.Payments.{AdminYooMoneyPayment}
use Prim.Native.Nat.{Ordering}
use vpnshiki.TopUps.{
  TopUpFiltersValue, filtered_payments, succeeded_payments, pending_count, is_expanded,
}
use vpnshiki.Prelude.Int.{ℤ, pos}
use vpnshiki.TopUps.Columns.{payment_columns}

-- The sum of the amounts that were received, in kopecks: an amount that is missing counts as 0.
abbrev received_cents : AdminYooMoneyPayment → Option ℤ
unfolding cents
received_cents payment = elim payment.received_amount [
  | none ↦ some (pos 0)
  | some amount ↦ cents (codes amount)
]

unfoldable pub received_total : List AdminYooMoneyPayment → Option ℤ
unfolding received_cents
received_total [] = some (pos 0)
received_total (payment ∷ payments) = received_cents payment +? received_total payments

-- The parts that `toFixed(2)` gives.
unfoldable pub sum_received : List AdminYooMoneyPayment → Text
unfolding received_total to_fixed
sum_received payments = to_fixed (received_total payments)

unfoldable pub format_payment_date : (String → Text) → Option String → Text
format_payment_date date none = codes "—"
format_payment_date date (some value) = if str_eq value "" then codes "—" else date value

unfoldable pub format_payment_time : (String → Text) → Option String → Text
format_payment_time time none = []
format_payment_time time (some value) = if str_eq value "" then [] else time value

pub record OperationsView : Type 0 where
  pub all_count : ℕ
  pub succeeded_count : ℕ
  pub waiting_count : ℕ
  pub received : Text
  pub rows : Option (List AdminYooMoneyPayment)
  pub open_rows : List AdminYooMoneyPayment

abbrev initial_sort : DataTableSort
initial_sort = record { column_id = "created_at"; direction = DataTableSortDirection.descending }

abbrev rows_or_none : List AdminYooMoneyPayment → Option (List AdminYooMoneyPayment)
rows_or_none [] = none
rows_or_none (p ∷ ps) = some (p ∷ ps)

module _ (to_lower : Text → Text) (money : Text → Text) (time : String → ℕ)
    (collate : String → String → Ordering) where
  -- `rows` is `none` with nothing to show, else the rows as the table sorts them at first.
  unfoldable pub operations_view :
      TopUpFiltersValue → Option String → List AdminYooMoneyPayment → OperationsView
  unfolding filtered_payments succeeded_payments pending_count sum_received sorted_rows
      payment_columns
  operations_view filters expanded payments =
      let shown = filtered_payments to_lower filters payments in
      record {
        all_count = length payments;
        succeeded_count = length (succeeded_payments payments);
        waiting_count = pending_count payments;
        received = money (sum_received (succeeded_payments payments));
        rows = rows_or_none (sorted_rows (payment_columns time collate) (some initial_sort) shown);
        open_rows = filter (λ p. is_expanded expanded p.id) shown;
      }

  unfoldable pub top_ups_view :
      TopUpFiltersValue
      → Option String
      → Query (List AdminYooMoneyPayment)
      → QueryView OperationsView
  unfolding operations_view
  top_ups_view filters expanded loading = waits "Загружаем пополнения"
  top_ups_view filters expanded failed = offers_retry "Не удалось загрузить пополнения"
  top_ups_view filters expanded (loaded []) = says_empty "Пополнений пока нет"
  top_ups_view filters expanded (loaded (p ∷ ps)) =
      shows (operations_view filters expanded (p ∷ ps))
