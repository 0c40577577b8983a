-- ===== src/Payment/Result.antt =====
-- frontend/src/pages/PaymentResultPage/PaymentResultPage.tsx: the card that the page shows, its icon aside.
use vpnshiki.Entities.Payments.{YooMoneyPaymentStatus}
use vpnshiki.Prelude.{none, refl}
use vpnshiki.Query.{loading, failed}
use vpnshiki.Prelude.{Bool, Option, String, false, some, ℕ, if◌then◌else◌, str_eq, true, ◌++◌, ◌≡◌}
use vpnshiki.Text.{Text, codes}
use vpnshiki.Payment.{refetch_interval}
use vpnshiki.Query.{Query, loaded}
use vpnshiki.Entities.Payments.{YooMoneyPayment}

pub record ResultCard : Type 0 where
  pub title : String
  pub text : Text

-- `paymentQuery`: an error hides the data of an answer before it.
pub data ResultView : Type 0 where
  waits : (label : String) → ResultView
  card : ResultCard → ResultView

abbrev received_text : (Text → Text) → Option String → Text
received_text money none = codes "Платёж успешно подтверждён."
received_text money (some amount) =
    if str_eq amount ""
    then codes "Платёж успешно подтверждён."
    else money (codes amount) ++ codes " успешно зачислены на ваш баланс."

-- `content`
unfoldable pub content : (Text → Text) → YooMoneyPayment → ResultCard
content money payment = elim payment.status [
  | YooMoneyPaymentStatus.pending ↦ record {
    title = "Ожидаем подтверждение";
    text = codes "YooMoney ещё не подтвердил перевод. Страница обновится автоматически.";
  }
  | YooMoneyPaymentStatus.succeeded ↦ record {
    title = "Баланс пополнен";
    text = received_text money payment.received_amount;
  }
]

abbrev failed_card : ResultCard
failed_card = record {
  title = "Не удалось проверить платёж";
  text = codes "Обновите страницу или вернитесь к балансу и проверьте историю пополнений.";
}

unfoldable pub result_view : (Text → Text) → Query YooMoneyPayment → ResultView
unfolding content
result_view money loading = waits "Проверяем платёж"
result_view money failed = card failed_card
result_view money (loaded payment) = card (content money payment)

abbrev pub promises_update : ResultView → Bool
promises_update (waits label) = false
promises_update (card c) = str_eq c.title "Ожидаем подтверждение"

abbrev is_polled : Option ℕ → Bool
is_polled none = false
is_polled (some interval) = true

content-polled :
    (money : Text → Text) (payment : YooMoneyPayment) (status : YooMoneyPaymentStatus)
    → payment.status ≡ status
    → promises_update (card (content money payment)) ≡ is_polled (refetch_interval (some payment))
unfolding content refetch_interval
content-polled money payment YooMoneyPaymentStatus.pending e = rw e refl
content-polled money payment YooMoneyPaymentStatus.succeeded e = rw e refl

-- The page says that it waits for the confirmation, and will update by itself, exactly while the query of the payment
-- is repeated.
pub result_view-refetch_interval :
    (money : Text → Text) (payment : YooMoneyPayment)
    → promises_update (result_view money (loaded payment))
      ≡ is_polled (refetch_interval (some payment))
unfolding result_view content refetch_interval
result_view-refetch_interval money payment = content-polled money payment payment.status refl
