-- ===== src/TariffPlans/Form/View.antt =====
-- frontend/src/pages/TariffPlansPage/components/TariffPlanForm/TariffPlanForm.tsx: the texts of the form and the rules of
-- its two fields. That `required` comes first and `min` and `validate` after it is what the form library documents.
-- Which number it reads from the text of the amount, `read`, is a parameter: the browser's double, whose value is a decimal.
use vpnshiki.Prelude.{
  ◌^◌, ◌*◌, [], ◌∷◌, Option, String, if◌then◌else◌, Bool, some, str_eq, ◌≡◌, false, none, ◌||◌, ◌↔◌,
  ltb, true, List, arith,
}
use vpnshiki.Text.{Text, is_empty}
use vpnshiki.TariffPlans.Schedule.{is_greater, get_preview_end_date}
use vpnshiki.TariffPlans.Form.{is_start_accepted, PlanFormValues, minimum_start}
use vpnshiki.Money.{Decimal}
use Prim.Native.Nat.{Ordering}
use vpnshiki.Entities.TariffPlans.{TariffPlan}
use vpnshiki.TariffPlans.Calendar.{format_calendar_date, format_tariff_plan_name}

-- `value < 0.01`, on the number that the field holds.
abbrev is_below_kopeck : Option Decimal → Bool
is_below_kopeck none = false
is_below_kopeck (some d) = d.negative || ltb (d.digits * 100) (10 ^ d.places)

unfoldable pub amount_error : (read : String → Option Decimal) → PlanFormValues → Option String
amount_error read v =
    if str_eq v.monthly_amount ""
    then some "Введите сумму"
    else if is_below_kopeck (read v.monthly_amount)
    then some "Сумма должна быть больше нуля"
    else none

abbrev pub future_error : Option Text → Text → Option String
unfolding is_greater
future_error none value = none
future_error (some m) value =
    if is_greater m value then some "Выберите будущую дату по Москве" else none

unfoldable pub start_error : Option Text → PlanFormValues → Option String
start_error minimum v =
    if is_empty v.start_date then some "Выберите дату начала" else future_error minimum v.start_date

pub record PlanFormView : Type 0 where
  pub name : Text
  pub minimum : Option Text
  pub end_date : Text
  pub submit_label : String

abbrev plan_id : Option TariffPlan → Option String
plan_id none = none
plan_id (some plan) = some plan.id

abbrev submit_text : Option TariffPlan → String
submit_text none = "Создать план"
submit_text (some plan) = "Сохранить изменения"

module _ (compare : Text → Text → Ordering) where
  unfoldable pub plan_form_view :
      (moscow_date : Text) (plan : Option TariffPlan) (plans : List TariffPlan)
      → PlanFormValues
      → PlanFormView
  unfolding minimum_start get_preview_end_date format_calendar_date format_tariff_plan_name
  plan_form_view moscow_date plan plans v = record {
    name = format_tariff_plan_name v.start_date;
    minimum = minimum_start moscow_date plans;
    end_date =
        format_calendar_date (get_preview_end_date compare v.start_date plans (plan_id plan));
    submit_label = submit_text plan;
  }

start_of :
    (minimum : Option Text) (value : Text)
    → ((if is_empty value then some "Выберите дату начала" else future_error minimum value) ≡ none)
      ↔ (is_start_accepted minimum value ≡ true)
unfolding is_start_accepted
start_of minimum [] = ground arith
start_of none (c ∷ s) = ground arith
start_of (some m) (c ∷ s) = ground arith

-- The field of the start shows no message exactly for the dates that the form takes.
pub start_error-is_start_accepted :
    (minimum : Option Text) (v : PlanFormValues)
    → (start_error minimum v ≡ none) ↔ (is_start_accepted minimum v.start_date ≡ true)
unfolding start_error is_start_accepted
start_error-is_start_accepted minimum v = start_of minimum v.start_date
