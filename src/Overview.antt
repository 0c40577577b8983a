-- ===== src/Overview.antt =====
-- frontend/src/pages/OverviewPage: the switch that activates an account, the texts about its status, and
-- the window that tops up the balance.
pub mod Page
pub mod Clients
pub mod Checkout
pub mod Amount
use vpnshiki.Prelude.Dict
use vpnshiki.Api.{ok, err, unexpected, api, ok, err, Fault, Result}
use vpnshiki.Users.Columns.{compare_decimals}
use Prim.Native.Nat.{Ordering}
use vpnshiki.Prelude.{
  none, some, [], ◌∷◌, true, false, Bool, Option, List, String, if◌then◌else◌, not, ◌++◌, str_eq,
  All, ◌≡◌, refl, ap, sym, ◌∙◌,
}
use mathlib.Core.List.{append_assoc, append-nil}
use vpnshiki.Entities.Users.{AccountStatus, AccountBlockSource}
use vpnshiki.Money.{number, Decimal}
use vpnshiki.Text.{Text}
use vpnshiki.Entities.Payments.{YooMoneyCheckout, YooMoneyPayment}

abbrev is_lt : Ordering → Bool
is_lt Ordering.lt = true
is_lt _ = false

-- `balanceValue >= -limitValue`, for two numbers.
can_spend : Option Decimal → Option Decimal → Bool
unfolding compare_decimals
can_spend (some balance) (some limit) =
    not (is_lt (compare_decimals balance (record limit { negative = not limit.negative })))
can_spend _ _ = false

-- `canActivate`
unfoldable pub can_activate : Text → Text → Bool
unfolding number can_spend
can_activate balance negative_balance_limit =
    can_spend (number balance) (number negative_balance_limit)

-- The status, the title and the description that the page shows.
unfoldable pub pulse_texts : AccountStatus → Option AccountBlockSource → String × String × String
pulse_texts AccountStatus.blocked (some AccountBlockSource.billing) =
    ("Заблокирован", "Аккаунт заблокирован", "Пополните баланс для разблокировки.")
pulse_texts AccountStatus.blocked _ =
    ("Заблокирован", "Аккаунт заблокирован", "Обратитесь к администратору.")
pulse_texts AccountStatus.active _ =
    ("Активен", "Аккаунт активен", "Ваш аккаунт включён в общий расчёт.")
pulse_texts AccountStatus.paused _ =
    ("Приостановлен", "Аккаунт приостановлен", "Списания отменены, VPN-профиль заблокирован.")

-- The window's payment, whether the window was told to close, the checkouts that were submitted, and the
-- messages of the form.
pub record TopUpWindow : Type 0 where
  pub payment : Option YooMoneyPayment
  pub is_open : Bool
  pub submitted : List YooMoneyCheckout
  pub errors : List (String × String)

abbrev amount_error : Option (List (String × String)) → Option String
amount_error none = none
amount_error (some entries) = Dict.get "amount" entries

abbrev named_error : Option String → String → List (String × String)
named_error none message = ("root", message) ∷ []
named_error (some text) message =
    if str_eq text "" then ("root", message) ∷ [] else ("amount", text) ∷ []

unfoldable pub top_up_errors : Fault → List (String × String)
unfolding Dict.get
top_up_errors unexpected = ("root", "Не удалось подготовить платёж") ∷ []
top_up_errors (api e) = named_error (amount_error e.field_errors) e.message

abbrev checkout_of : Option YooMoneyPayment → Option YooMoneyCheckout
checkout_of none = none
checkout_of (some payment) = payment.checkout

abbrev submit_checkout : TopUpWindow → Option YooMoneyCheckout → TopUpWindow
submit_checkout w none = w
submit_checkout w (some checkout) = record w { submitted = w.submitted ++ checkout ∷ [] }

pub data TopUpEvent : Type 0 where
  payment_created : Result YooMoneyPayment → TopUpEvent
  back_clicked pay_clicked closed : TopUpEvent

-- `submit`, `setPayment(null)`, `pay` and `resetAndClose`.
unfoldable pub top_up_step : TopUpWindow → TopUpEvent → TopUpWindow
unfolding top_up_errors
top_up_step w (payment_created (ok payment)) = record w { payment = some payment; errors = [] }
top_up_step w (payment_created (err e)) = record w { errors = top_up_errors e }
top_up_step w back_clicked = record w { payment = none }
top_up_step w pay_clicked = submit_checkout w (checkout_of w.payment)
top_up_step w closed = record w { payment = none; is_open = false; errors = [] }

unfoldable pub top_up_run : TopUpWindow → List TopUpEvent → TopUpWindow
unfolding top_up_step
top_up_run w [] = w
top_up_run w (e ∷ es) = top_up_run (top_up_step w e) es

-- The window as it opens.
abbrev pub opened : TopUpWindow
opened = record { payment = none; is_open = true; submitted = []; errors = [] }

top_up_run-append :
    (w : TopUpWindow) (es fs : List TopUpEvent)
    → top_up_run w (es ++ fs) ≡ top_up_run (top_up_run w es) fs
unfolding top_up_run
top_up_run-append w [] fs = refl
top_up_run-append w (e ∷ es) fs = top_up_run-append (top_up_step w e) es fs

-- What leaves the payment of the window as it is: a click on the button that pays, and a refusal.
abbrev pub Keeps : TopUpEvent → Type 0
Keeps pay_clicked = Unit
Keeps (payment_created (err e)) = Unit
Keeps _ = ⊥

-- A checkout for each click on the button that pays; none where a payment has none.
abbrev pub one_per_click : Option YooMoneyCheckout → List TopUpEvent → List YooMoneyCheckout
one_per_click none es = []
one_per_click (some checkout) [] = []
one_per_click (some checkout) (pay_clicked ∷ es) = checkout ∷ one_per_click (some checkout) es
one_per_click (some checkout) (e ∷ es) = one_per_click (some checkout) es

one_per_click-pay :
    (w : TopUpWindow) (o : Option YooMoneyCheckout) (es : List TopUpEvent)
    → (submit_checkout w o).submitted ++ one_per_click o es
      ≡ w.submitted ++ one_per_click o (pay_clicked ∷ es)
one_per_click-pay w none es = refl
one_per_click-pay w (some checkout) es = append_assoc w.submitted (checkout ∷ []) _

one_per_click-err :
    (o : Option YooMoneyCheckout) (e : Fault) (es : List TopUpEvent)
    → one_per_click o (payment_created (err e) ∷ es) ≡ one_per_click o es
one_per_click-err none e es = refl
one_per_click-err (some checkout) e es = refl

one_per_click-nil : (o : Option YooMoneyCheckout) → one_per_click o [] ≡ []
one_per_click-nil none = refl
one_per_click-nil (some checkout) = refl

submit_checkout-payment :
    (w : TopUpWindow) (o : Option YooMoneyCheckout) → (submit_checkout w o).payment ≡ w.payment
submit_checkout-payment w none = refl
submit_checkout-payment w (some checkout) = refl

kept-submitted :
    (w : TopUpWindow) (es : List TopUpEvent)
    → All Keeps es
    → (top_up_run w es).submitted ≡ w.submitted ++ one_per_click (checkout_of w.payment) es
unfolding top_up_run top_up_step
kept-submitted w [] k = sym (
    ap (λ l. w.submitted ++ l) (one_per_click-nil (checkout_of w.payment)) ∙ append-nil w.submitted)
kept-submitted w (pay_clicked ∷ es) k =
    let paid = submit_checkout w (checkout_of w.payment) in
    kept-submitted paid es k.1
    ∙ ap (λ o. paid.submitted ++ one_per_click (checkout_of o) es) (submit_checkout-payment w _)
    ∙ one_per_click-pay w (checkout_of w.payment) es
kept-submitted w (payment_created (err e) ∷ es) k =
    kept-submitted (top_up_step w (payment_created (err e))) es k.1
    ∙ ap (λ l. w.submitted ++ l) (sym (one_per_click-err (checkout_of w.payment) e es))
kept-submitted w (payment_created (ok p) ∷ es) k = absurd k.0
kept-submitted w (back_clicked ∷ es) k = absurd k.0
kept-submitted w (closed ∷ es) k = absurd k.0

module _ (before after : List TopUpEvent) (kept : All Keeps after) where
  after_event :
      (e : TopUpEvent)
      → (top_up_step (top_up_run opened before) e).submitted ≡ (top_up_run opened before).submitted
      → (top_up_run opened (before ++ e ∷ after)).submitted
        ≡ (top_up_run opened before).submitted
          ++ one_per_click (checkout_of (top_up_step (top_up_run opened before) e).payment) after
  unfolding top_up_run
  after_event e same =
      ap (λ w. w.submitted) (top_up_run-append opened before (e ∷ after))
      ∙ kept-submitted (top_up_step (top_up_run opened before) e) after kept
      ∙ ap
          (λ l.
            l
            ++ one_per_click (checkout_of (top_up_step (top_up_run opened before) e).payment) after)
          same

  -- After a payment that the server gave, and until the next one, the way back or the close, each click on the
  -- button that pays submits the checkout of that payment once, and none where it has none, whatever was done
  -- before and whatever requests are refused meanwhile; after the way back, after the close, and before the
  -- first payment a click submits nothing.
  pub top_up_run-submitted :
      (payment : YooMoneyPayment)
      → ((top_up_run opened (before ++ payment_created (ok payment) ∷ after)).submitted
          ≡ (top_up_run opened before).submitted ++ one_per_click payment.checkout after)
        × ((top_up_run opened (before ++ back_clicked ∷ after)).submitted
            ≡ (top_up_run opened before).submitted)
        × ((top_up_run opened (before ++ closed ∷ after)).submitted
            ≡ (top_up_run opened before).submitted)
        × ((top_up_run opened after).submitted ≡ [])
  unfolding top_up_step
  top_up_run-submitted payment = (
    after_event (payment_created (ok payment)) refl,
    after_event back_clicked refl ∙ append-nil _,
    after_event closed refl ∙ append-nil _,
    kept-submitted opened after kept,
  )
