-- ===== src/Overview/Amount.antt =====
-- frontend/src/pages/OverviewPage/components/TopUpModal/TopUpModal.tsx: the rule of the amount and the two faces of the
-- window. That `required` comes before `min` and `max` is what the form library documents. Which number it
-- reads from the text of the field, `read`, is a parameter: the browser's double, whose value is a decimal.

use vpnshiki.Prelude.{
  eq_iff, inr, ◌^◌, ◌*◌, none, Option, String, ℕ, Bool, if◌then◌else◌, some, ◌≢◌, not, str_eq, ◌||◌,
  ◌≡◌, ltb, ◌&&◌, ◌↔◌, false, ◌≤◌, Bool-cases, arith, inl, true, ◌⊎◌, ◌<◌,
}
use vpnshiki.Money.{Decimal}
use vpnshiki.Text.{Text, codes}
use vpnshiki.Entities.Payments.{YooMoneyPayment}

abbrev is_below : ℕ → Decimal → Bool
is_below bound d = d.negative || ltb d.digits (bound * 10 ^ d.places)

abbrev is_above : ℕ → Decimal → Bool
is_above bound d = not d.negative && ltb (bound * 10 ^ d.places) d.digits

-- The message for a number; what is no number passes both bounds.
abbrev pub bounds_error : Option Decimal → Option String
bounds_error none = none
bounds_error (some d) =
    if is_below 10 d
    then some "Минимальная сумма — 10 ₽"
    else if is_above 5000 d
    then some "Максимальная сумма — 5 000 ₽"
    else none

unfoldable pub top_up_amount_error : (read : String → Option Decimal) → String → Option String
top_up_amount_error read value =
    if str_eq value "" then some "Введите сумму платежа" else bounds_error (read value)

pub data TopUpView : Type 0 where
  summary : (description : String) → (total : Text) → TopUpView
  amount_form : TopUpView

-- The window shows the payment that was prepared, or the form.
unfoldable pub top_up_view : (Text → Text) → Option YooMoneyPayment → TopUpView
top_up_view money none = amount_form
top_up_view money (some payment) =
    summary "Проверьте сумму перед переходом на сторону YooMoney."
      (money (codes payment.requested_amount))

-- From one number of roubles to another, both included.
abbrev pub IsWithin : ℕ → ℕ → Decimal → Type 0
IsWithin low high d =
    (d.negative ≡ false) × (low * 10 ^ d.places ≤ d.digits) × (d.digits ≤ high * 10 ^ d.places)

abbrev too_small : String
too_small = "Минимальная сумма — 10 ₽"

abbrev too_large : String
too_large = "Максимальная сумма — 5 000 ₽"

messages_differ : too_small ≢ too_large
messages_differ h =
    let same : str_eq too_small too_large ≡ true = (eq_iff too_small too_large).1 h in cc

bounds_error_iff :
    (d : Decimal)
    → ((bounds_error (some d) ≡ none) ↔ IsWithin 10 5000 d)
      × ((bounds_error (some d) ≡ some "Минимальная сумма — 10 ₽")
          ↔ ((d.negative ≡ true) ⊎ (d.digits < 10 * 10 ^ d.places)))
      × ((bounds_error (some d) ≡ some "Максимальная сумма — 5 000 ₽")
          ↔ ((d.negative ≡ false) × (5000 * 10 ^ d.places < d.digits)))
bounds_error_iff d = let differ = messages_differ in (ground arith, ground arith, ground arith)

-- Of an amount that the field reads as a number the form says that it is too small exactly if it is negative
-- or below 10 roubles, and that it is too large exactly if it is above 5000; it takes it exactly if it is from
-- 10 to 5000 roubles, both included.
pub top_up_amount_error_iff :
    (read : String → Option Decimal) (value : String) (d : Decimal)
    → value ≢ ""
    → read value ≡ some d
    → ((top_up_amount_error read value ≡ none) ↔ IsWithin 10 5000 d)
      × ((top_up_amount_error read value ≡ some "Минимальная сумма — 10 ₽")
          ↔ ((d.negative ≡ true) ⊎ (d.digits < 10 * 10 ^ d.places)))
      × ((top_up_amount_error read value ≡ some "Максимальная сумма — 5 000 ₽")
          ↔ ((d.negative ≡ false) × (5000 * 10 ^ d.places < d.digits)))
unfolding top_up_amount_error
top_up_amount_error_iff read value d present e = elim (Bool-cases (str_eq value "")) [
  | inl empty ↦ absurd (present ((eq_iff value "").0 empty))
  | inr filled ↦ rw filled (rw e (bounds_error_iff d))
]
