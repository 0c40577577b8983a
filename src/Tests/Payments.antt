-- ===== src/Tests/Payments.antt =====
-- The page that waits for a payment, and the list of payments.
use vpnshiki.Api.{ok, err, unexpected}
use vpnshiki.Overview.{
  pay_clicked, payment_created, back_clicked, closed, TopUpEvent, top_up_run, opened,
  top_up_run-submitted,
}
use vpnshiki.Payment
use vpnshiki.Prelude.Dict.{get, HasDistinctKeys}
use vpnshiki.TopUps.{all_statuses, filtered_payments, has_active_filters, no_filters, user_options}
use Prim.Native.Nat.{Ordering}
use vpnshiki.Money.{number, Decimal}
use vpnshiki.Overview.Amount.{IsWithin, top_up_amount_error, top_up_amount_error_iff}
use vpnshiki.Prelude.{
  ◌↔◌, ◌<◌, ◌⊎◌, true, Option, ◌*◌, ◌^◌, arith, eq_iff, none, some, [], ◌∷◌, false, refl, List,
  String, ◌≡◌, Perm, All, ◌++◌,
}
use vpnshiki.Payment.{
  IsOnce, queries, PaymentEvent, payment_run, payment_run-initial-IsOnce, queried, reconcile,
  answered, fetch_ended, queries-initial, Asks, PaymentRequest,
}
use vpnshiki.Entities.Payments.{
  YooMoneyPayment, AdminYooMoneyPayment, YooMoneyPaymentStatus, YooMoneyCheckout, post,
}
use vpnshiki.Text.{codes}
use vpnshiki.TopUps.Laws.{IsSome, user_options-exact}

abbrev paid : YooMoneyPayment
paid = record {
  id = "p1";
  status = YooMoneyPaymentStatus.succeeded;
  requested_amount = "300.00";
  received_amount = some "291.00";
  created_at = "2026-05-31T09:00:00Z";
  paid_at = some "2026-05-31T09:01:00Z";
  checkout = none;
}

abbrev payment_events : List PaymentEvent
payment_events = queried 5 ∷ answered paid ∷ fetch_ended false ∷ answered paid ∷ answered paid ∷ []

payment_run-initial-IsOnce_example :
    IsOnce "p1" (payment_run vpnshiki.Payment.initial payment_events)
payment_run-initial-IsOnce_example =
    payment_run-initial-IsOnce "p1" payment_events (tt, (refl, (tt, (refl, (refl, tt)))))

queries-initial_example :
    Asks 1000
      (1000 ∷ 11000 ∷ 61000 ∷ [])
      (queries vpnshiki.Payment.initial (1000 ∷ 11000 ∷ 61000 ∷ []))
queries-initial_example = queries-initial 1000 (11000 ∷ 61000 ∷ [])

stops_reconciling :
    queries vpnshiki.Payment.initial (1000 ∷ 60999 ∷ 61000 ∷ [])
    ≡ reconcile ∷ reconcile ∷ PaymentRequest.get ∷ []
unfolding queries
stops_reconciling = refl

abbrev payment : String → String → YooMoneyPaymentStatus → AdminYooMoneyPayment
payment user_id user_name status = record {
  id = "p1";
  user_id = user_id;
  user_name = user_name;
  label = "label";
  requested_amount = "300.00";
  withdrawn_amount = none;
  received_amount = none;
  payment_type = none;
  operation_id = none;
  status = status;
  last_reconciliation_check_at = none;
  created_at = "2026-05-31T09:00:00Z";
  paid_at = none;
}

abbrev payments : List AdminYooMoneyPayment
payments =
    payment "u1" "old" YooMoneyPaymentStatus.pending
    ∷ payment "u2" "other" YooMoneyPaymentStatus.succeeded
    ∷ payment "u1" "new" YooMoneyPaymentStatus.pending
    ∷ []

found :
    filtered_payments
      (λ s. s)
      (record { search = codes " new "; user_id = "u1"; status = all_statuses })
      payments
    ≡ payment "u1" "new" YooMoneyPaymentStatus.pending ∷ []
unfolding filtered_payments
found = refl

no_filters_active : has_active_filters no_filters ≡ false
unfolding has_active_filters
no_filters_active = refl

user_options-exact_example :
    (users : List (String × String)) × (sorted : List (String × String)) × (user_options
        (λ x y. Ordering.eq)
        payments
      ≡ ("all", "Все") ∷ sorted)
    × Perm sorted users
    × HasDistinctKeys users
    × All (λ p. IsSome (get p.user_id users)) payments
user_options-exact_example = user_options-exact (λ x y. Ordering.eq) payments

abbrev checkout : YooMoneyCheckout
checkout = record { action = "https://yoomoney.ru"; method = post; fields = ("sum", "300.00") ∷ [] }

abbrev window_events : List TopUpEvent
window_events =
    pay_clicked ∷ payment_created (ok (record paid { checkout = some checkout })) ∷ pay_clicked ∷ []

submits_once : (top_up_run opened window_events).submitted ≡ checkout ∷ []
unfolding top_up_run
submits_once = refl

abbrev offered : YooMoneyPayment
offered = record paid { checkout = some checkout }

abbrev clicks : List TopUpEvent
clicks = pay_clicked ∷ payment_created (err unexpected) ∷ pay_clicked ∷ []

top_up_run-submitted_example :
    ((top_up_run opened (window_events ++ payment_created (ok offered) ∷ clicks)).submitted
      ≡ (top_up_run opened window_events).submitted ++ checkout ∷ checkout ∷ [])
    × ((top_up_run opened (window_events ++ back_clicked ∷ clicks)).submitted
        ≡ (top_up_run opened window_events).submitted)
    × ((top_up_run opened (window_events ++ closed ∷ clicks)).submitted
        ≡ (top_up_run opened window_events).submitted)
    × ((top_up_run opened clicks).submitted ≡ [])
top_up_run-submitted_example =
    top_up_run-submitted window_events clicks (tt, (tt, (tt, tt))) offered

abbrev read : String → Option Decimal
read value = number (codes value)

abbrev five_thousand : Decimal
five_thousand = record { negative = false; digits = 500000; places = 2 }

five_thousand-reads : read "5000.00" ≡ some five_thousand
unfolding number
five_thousand-reads = refl

five_thousand_more :
    number (codes "5e3") ≡ some record { negative = false; digits = 5000; places = 0 }
unfolding number
five_thousand_more = refl

too_much : top_up_amount_error read "1e9" ≡ some "Максимальная сумма — 5 000 ₽"
unfolding top_up_amount_error number
too_much = refl

top_up_amount_error_iff_example :
    ((top_up_amount_error read "5000.00" ≡ none) ↔ IsWithin 10 5000 five_thousand)
    × ((top_up_amount_error read "5000.00" ≡ some "Минимальная сумма — 10 ₽")
        ↔ ((false ≡ true) ⊎ (500000 < 10 * 10 ^ 2)))
    × ((top_up_amount_error read "5000.00" ≡ some "Максимальная сумма — 5 000 ₽")
        ↔ ((false ≡ false) × (5000 * 10 ^ 2 < 500000)))
top_up_amount_error_iff_example =
    top_up_amount_error_iff read "5000.00" five_thousand
      (λ e. ground (arith, eq_iff "5000.00" "", e)) five_thousand-reads
