-- ===== src/TariffPlans/Card.antt =====
-- frontend/src/pages/TariffPlansPage/components/CurrentTariffCard/CurrentTariffCard.tsx, and the table of
-- frontend/src/pages/TariffPlansPage/TariffPlansPage.tsx. `days` is `getDaysInMoscowMonth()` for the day of the render.
use vpnshiki.Query.{
  shows, loading, failed, loaded, Query, QueryView, waits, offers_retry, says_empty,
}
use vpnshiki.Prelude.{
  ℕ, none, some, [], ◌∷◌, zero, suc, true, false, Option, String, Bool, List, ◌++◌, if◌then◌else◌,
  not, ◌==◌, length, map,
}
use vpnshiki.Entities.TariffPlans.{TariffPlanStatus, TariffPlan}
use vpnshiki.Text.{Text, decimal, codes}
use vpnshiki.TariffPlans.Charge.{calculate_daily_charge}
use vpnshiki.TariffPlans.Calendar.{format_calendar_date}
use vpnshiki.Users.Page.{status_count}
use Prim.Native.Nat.{Ordering}
use vpnshiki.Entities.Users.{AdminUser, AccountStatus}
use vpnshiki.TariffPlans.Schedule.{displayed_plans, current_plan}

-- `note`
unfoldable pub charge_note : Option ℕ → (users_error : Bool) → Option String
charge_note active_users true = some "Не удалось получить участников"
charge_note none false = some "Считаем участников…"
charge_note (some zero) false = some "Нет активных пользователей"
charge_note (some (suc n)) false = none

unfoldable pub card_charge : String → ℕ → Option ℕ → Option Text
unfolding calculate_daily_charge
card_charge monthly_amount days none = none
card_charge monthly_amount days (some users) =
    calculate_daily_charge (codes monthly_amount) days users

pub record CardView : Type 0 where
  pub name : String
  pub monthly_amount : Text
  pub start : Text
  pub end : Text
  pub users : Text
  pub days : Text
  pub charge : Text
  pub note : Option String

module _ (money : Text → Text) where
  abbrev charge_text : Option Text → Text
  charge_text none = codes "—"
  charge_text (some []) = codes "—"
  charge_text (some (c ∷ s)) = money (c ∷ s)

  abbrev users_text : Option ℕ → Text
  unfolding decimal
  users_text none = codes "—"
  users_text (some n) = decimal n

  unfoldable pub card_view : ℕ → Option ℕ → (users_error : Bool) → TariffPlan → CardView
  unfolding format_calendar_date decimal users_text card_charge charge_note
  card_view days active_users users_error plan = record {
    name = plan.name;
    monthly_amount = money (codes plan.monthly_amount);
    start = format_calendar_date (some plan.start_date);
    end = format_calendar_date plan.end_date;
    users = users_text active_users;
    days = decimal days;
    charge = charge_text (card_charge plan.monthly_amount days active_users);
    note = charge_note active_users users_error;
  }

-- `statusView`
unfoldable pub plan_status_label : TariffPlanStatus → String
plan_status_label TariffPlanStatus.active = "Действует"
plan_status_label TariffPlanStatus.scheduled = "Запланирован"
plan_status_label TariffPlanStatus.completed = "Завершён"

pub record PlanRow : Type 0 where
  pub name : String
  pub status : String
  pub amount : Text
  pub start : Text
  pub end : Text
  pub edit_title : String
  pub delete_title : String
  pub buttons_disabled : Bool

unfoldable pub plan_row : (Text → Text) → TariffPlan → PlanRow
unfolding plan_status_label format_calendar_date
plan_row money plan = record {
  name = plan.name;
  status = plan_status_label plan.status;
  amount = money (codes plan.monthly_amount);
  start = format_calendar_date (some plan.start_date);
  end = format_calendar_date plan.end_date;
  edit_title = if plan.is_editable then "Редактировать план" else "Начавшийся план нельзя изменить";
  delete_title = if plan.is_editable then "Удалить план" else "Начавшийся план нельзя удалить";
  buttons_disabled = not plan.is_editable;
}

-- The label of the count, with two forms of the noun.
unfoldable pub plan_count_label : ℕ → Text
unfolding decimal
plan_count_label n = decimal n ++ (if n == 1 then codes " план" else codes " планов")

abbrev active_of : List AdminUser → ℕ
unfolding status_count
active_of users = status_count AccountStatus.active users

-- `activeUsers`, of a query that runs with a current plan alone.
abbrev active_users : Query (List AdminUser) → Option ℕ
unfolding active_of
active_users (loaded users) = some (active_of users)
active_users _ = none

abbrev is_failed : Query (List AdminUser) → Bool
is_failed failed = true
is_failed _ = false

-- The card, `none` in it without a current plan, and the table.
pub record PlansView : Type 0 where
  pub card : Option (Option CardView)
  pub count : Text
  pub table : QueryView (List PlanRow)

module _ (money : Text → Text) (compare : Text → Text → Ordering) (days : ℕ) where
  abbrev card_of : Query (List AdminUser) → Option TariffPlan → Option CardView
  unfolding card_view active_users
  card_of users none = none
  card_of users (some plan) =
      some (card_view money days (active_users users) (is_failed users) plan)

  unfoldable pub plans_view : Query (List TariffPlan) → Query (List AdminUser) → PlansView
  unfolding card_of plan_count_label displayed_plans plan_row current_plan
  plans_view loading users = record {
    card = none;
    count = plan_count_label 0;
    table = waits "Загружаем тарифные планы";
  }
  plans_view failed users = record {
    card = none;
    count = plan_count_label 0;
    table = offers_retry "Не удалось загрузить тарифные планы.";
  }
  plans_view (loaded []) users = record {
    card = some none;
    count = plan_count_label 0;
    table = says_empty "Расписание пока пустое";
  }
  plans_view (loaded (p ∷ ps)) users = record {
    card = some (card_of users (current_plan (p ∷ ps)));
    count = plan_count_label (length (p ∷ ps));
    table = shows (map (plan_row money) (displayed_plans compare (p ∷ ps)));
  }
