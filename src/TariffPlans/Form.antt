-- ===== src/TariffPlans/Form.antt =====
-- frontend/src/pages/TariffPlansPage/components/TariffPlanForm/TariffPlanForm.tsx: what the form starts
-- from, what dates it takes, what it sends and what it shows when the server refuses.
pub mod View
use vpnshiki.Api.{unexpected, api, Fault}
use vpnshiki.Prelude.{
  none, some, [], ◌∷◌, true, false, Option, String, List, if◌then◌else◌, Bool, str_eq, map, not,
}
use vpnshiki.Entities.TariffPlans.{TariffPlanPayload, TariffPlan}
use vpnshiki.TariffPlans.Calendar.{add_calendar_days}
use vpnshiki.TariffPlans.Schedule.{is_greater}
use vpnshiki.Text.{Text}
use vpnshiki.Prelude.Int.{pos}

pub record PlanFormValues : Type 0 where
  pub monthly_amount : String
  pub start_date : Text

unfoldable pub plan_defaults : Option TariffPlan → PlanFormValues
plan_defaults none = record { monthly_amount = ""; start_date = [] }
plan_defaults (some plan) = record {
  monthly_amount = plan.monthly_amount;
  start_date = plan.start_date;
}

-- Tomorrow in Moscow, once there is a plan.
unfoldable pub minimum_start : Text → List TariffPlan → Option Text
unfolding add_calendar_days
minimum_start moscow_date [] = none
minimum_start moscow_date (_ ∷ _) = some (add_calendar_days moscow_date (pos 1))

-- `value >= minimumStart`, on a value that is not empty: the field is required.
unfoldable pub is_start_accepted : Option Text → Text → Bool
unfolding is_greater
is_start_accepted minimum [] = false
is_start_accepted none (c ∷ s) = true
is_start_accepted (some m) (c ∷ s) = not (is_greater m (c ∷ s))

unfoldable pub plan_payload : PlanFormValues → TariffPlanPayload
plan_payload v = record { monthly_amount = v.monthly_amount; start_date = v.start_date }

abbrev plan_field : String → String
plan_field field = if str_eq field "monthly_amount" then "monthlyAmount" else "startDate"

unfoldable pub plan_submit_errors : Fault → List (String × String)
plan_submit_errors unexpected = ("root", "Не удалось сохранить тарифный план") ∷ []
plan_submit_errors (api e) = elim e.field_errors [
  | none ↦ ("root", e.message) ∷ []
  | some entries ↦ map (λ entry. (plan_field entry.0, entry.1)) entries
]
