-- ===== src/TariffPlans/Schedule.antt =====
-- The schedule of the plans: `getPreviewEndDate` of frontend/src/entities/tariffPlan/utils.ts and the
-- lists of frontend/src/pages/TariffPlansPage/TariffPlansPage.tsx. `compare` is `localeCompare`.
pub mod Laws
use vpnshiki.Prelude.{
  none, some, [], ◌∷◌, true, false, List, Option, Bool, String, Mem, find, ltb, not, str_eq, filter,
  ◌&&◌, ◌||◌, ◌≡◌, ◌==◌,
}
use vpnshiki.Entities.TariffPlans.{TariffPlanStatus, TariffPlan}
use vpnshiki.Text.{Text}
use vpnshiki.TariffPlans.Calendar.{add_calendar_days}
use Prim.Native.Nat.{Ordering}
use vpnshiki.Prelude.Int.{negsuc}
use vpnshiki.Prelude.Sorting.{sort, is_gt}

-- `left > right` on texts, by code units.
unfoldable pub is_greater : Text → Text → Bool
is_greater [] t = false
is_greater (a ∷ s) [] = true
is_greater (a ∷ s) (b ∷ t) = let rest = is_greater s t in ltb b a || (a == b && rest)

abbrev is_edited : Option String → TariffPlan → Bool
is_edited none plan = false
is_edited (some id) plan = str_eq plan.id id

-- `plan.id !== editingId && plan.start_date > startDate`
unfoldable pub is_later : Text → Option String → TariffPlan → Bool
unfolding is_greater
is_later start_date editing plan =
    not (is_edited editing plan) && is_greater plan.start_date start_date

unfoldable pub day_before : List TariffPlan → Option Text
unfolding add_calendar_days
day_before [] = none
day_before (plan ∷ _) = some (add_calendar_days plan.start_date (negsuc 0))

module _ (compare : Text → Text → Ordering) where
  abbrev pub by_start : TariffPlan → TariffPlan → Ordering
  by_start left right = compare left.start_date right.start_date

  unfoldable pub get_preview_end_date : Text → List TariffPlan → Option String → Option Text
  unfolding is_later sort day_before
  get_preview_end_date [] plans editing = none
  get_preview_end_date (c ∷ s) plans editing =
      day_before (sort by_start (filter (is_later (c ∷ s) editing) plans))

  -- The latest plan first.
  unfoldable pub displayed_plans : List TariffPlan → List TariffPlan
  unfolding sort
  displayed_plans plans = sort (λ left right. compare right.start_date left.start_date) plans

abbrev is_active : TariffPlanStatus → Bool
is_active TariffPlanStatus.active = true
is_active _ = false

unfoldable pub current_plan : List TariffPlan → Option TariffPlan
current_plan plans = find (λ plan. is_active plan.status) plans
