-- ===== src/TopUps/Details.antt =====
-- frontend/src/pages/TopUpsPage/components/PaymentTechnicalDetails/PaymentTechnicalDetails.tsx: what is shown of
-- a payment under its row.
use vpnshiki.Prelude.{
  none, some, [], ◌∷◌, true, false, Option, String, Bool, not, if◌then◌else◌, str_eq, List, ◌++◌,
}
use vpnshiki.Text.{Text, codes}
use vpnshiki.Timers.{Flash, start}
use vpnshiki.TopUps.Columns.{payment_type_label}
use vpnshiki.Entities.Payments.{AdminYooMoneyPayment}

-- `CopyValue`: a new timer at every copy; an older one is left running.
unfoldable pub copy_value : Option String → Option Bool → Flash Bool → Flash Bool
copy_value none clipboard s = s
copy_value (some value) none s = s
copy_value (some value) (some false) s = s
copy_value (some value) (some true) s =
    if str_eq value "" then s else record s { value = true; timers = start 1600 s.timers }

-- A label with the text to show, and whether it can be copied.
pub record DetailRow : Type 0 where
  pub label : String
  pub text : Text
  pub has_copy_button : Bool

abbrev has_text : Option String → Bool
has_text none = false
has_text (some s) = not (str_eq s "")

abbrev text_or_dash : Option String → Text
text_or_dash none = codes "—"
text_or_dash (some s) = codes s

copy_row : String → Option String → DetailRow
copy_row label value = record {
  label = label;
  text = text_or_dash value;
  has_copy_button = has_text value;
}

plain_row : String → Text → DetailRow
plain_row label text = record { label = label; text = text; has_copy_button = false }

module _ (money : String → Text) (date time : String → Text) where
  abbrev money_or_dash : Option String → Text
  money_or_dash none = codes "—"
  money_or_dash (some amount) = if str_eq amount "" then codes "—" else money amount

  abbrev check_text : Option String → Text
  check_text none = codes "Не выполнялась"
  check_text (some at) =
      if str_eq at "" then codes "Не выполнялась" else date at ++ codes ", " ++ time at

  unfoldable pub technical_details : AdminYooMoneyPayment → List DetailRow
  unfolding copy_row plain_row payment_type_label
  technical_details payment =
      copy_row "ID платежа" (some payment.id)
      ∷ copy_row "Label YooMoney" (some payment.label)
      ∷ copy_row "ID операции" payment.operation_id
      ∷ plain_row "Способ оплаты" (codes (payment_type_label payment.payment_type))
      ∷ plain_row "Списано" (money_or_dash payment.withdrawn_amount)
      ∷ plain_row "Последняя проверка" (check_text payment.last_reconciliation_check_at)
      ∷ []
