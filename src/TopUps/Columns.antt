-- ===== src/TopUps/Columns.antt =====
-- The columns of the table of payments in
-- frontend/src/pages/TopUpsPage/components/OperationsView/OperationsView.tsx, and the texts of
-- frontend/src/pages/TopUpsPage/utils.ts. `time` is `Date.parse`, `collate` the page's collator.
use Prim.Native.Nat.{compare, Ordering}
use vpnshiki.Users.Columns.{compare_amounts}
use vpnshiki.Entities.Payments.{YooMoneyPaymentStatus, YooMoneyPaymentType, AdminYooMoneyPayment}
use vpnshiki.Prelude.{ℕ, none, some, [], ◌∷◌, Option, String, List}
use vpnshiki.Ui.DataTable.{DataTableColumn}

unfoldable pub payment_status_label : YooMoneyPaymentStatus → String
payment_status_label YooMoneyPaymentStatus.pending = "Ожидает"
payment_status_label YooMoneyPaymentStatus.succeeded = "Зачислен"

unfoldable pub payment_type_label : Option YooMoneyPaymentType → String
payment_type_label (some YooMoneyPaymentType.ac) = "Карта"
payment_type_label (some YooMoneyPaymentType.pc) = "Кошелёк"
payment_type_label none = "Не определён"

-- `Number(left ?? -Infinity) - Number(right ?? -Infinity)`, which is NaN for two that are missing.
unfoldable pub compare_received : Option String → Option String → Ordering
unfolding compare_amounts
compare_received none none = Ordering.eq
compare_received none (some right) = Ordering.lt
compare_received (some left) none = Ordering.gt
compare_received (some left) (some right) = compare_amounts left right

module _ (time : String → ℕ) (collate : String → String → Ordering) where
  abbrev column :
      String
      → (AdminYooMoneyPayment → AdminYooMoneyPayment → Ordering)
      → DataTableColumn AdminYooMoneyPayment
  column id order = record { id = id; compare = some order }

  unfoldable pub payment_columns : List (DataTableColumn AdminYooMoneyPayment)
  unfolding payment_status_label compare_amounts compare_received
  payment_columns =
      column "created_at" (λ left right. compare (time left.created_at) (time right.created_at))
      ∷ column "user_name" (λ left right. collate left.user_name right.user_name)
      ∷ column "status" (λ left right.
        collate (payment_status_label left.status) (payment_status_label right.status))
      ∷ column "requested_amount"
          (λ left right. compare_amounts left.requested_amount right.requested_amount)
      ∷ column "received_amount"
          (λ left right. compare_received left.received_amount right.received_amount)
      ∷ record { id = "details"; compare = none }
      ∷ []
