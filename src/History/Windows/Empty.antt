-- ===== src/History/Windows/Empty.antt =====
-- When the windows of frontend/src/entities/user/ui/ChargeHistoryModal, TopUpHistoryModal and of the billing history of a
-- plan say that there is nothing to show.
use mathlib.Core.List.Perm
use mathlib.Core.List.{cons≢nil}
use vpnshiki.Prelude.{
  refl, map, arith, ◌∙◌, List, String, Perm, false, some, Bool, Option, length, ◌≡◌, [],
  if◌then◌else◌, ◌==◌, ◌∷◌,
}
use vpnshiki.History.Conservation.{charge_months-exact, top_up_months-exact, run_months-exact}
use vpnshiki.History.Windows.{
  top_up_window, top_up_labels, billing_window, billing_labels, charge_labels, includes_tariff_plan,
  charge_window, HistoryQuery, window_body, fetched, HistoryMode,
}
use vpnshiki.History.Charges.{group_charges, charge_months}
use vpnshiki.History.BillingRuns.{group_runs, run_months}
use vpnshiki.History.TopUps.{group_top_ups, top_up_months}
use vpnshiki.Locale.{Locale}
use vpnshiki.Entities.TariffPlans.{TariffPlanBillingRun}
use vpnshiki.Entities.Users.{UserCharge, UserTopUp}
use vpnshiki.History.Grouping.{all_rows}
use vpnshiki.Query.{says_empty, shows}

is_empty-map :
    {A B : Type 0} (f : A → B) (xs : List A) → (length (map f xs) == 0) ≡ (length xs == 0)
is_empty-map f [] = refl
is_empty-map f (x ∷ xs) = ground arith

module _ {A : Type 0} where
  is_empty-months :
      (months : List (String × List A)) (xs : List A)
      → Perm (all_rows months) xs
      → (xs ≡ [] → months ≡ [])
      → (length months == 0) ≡ (length xs == 0)
  is_empty-months [] xs p e = rw (← Perm.nil-eq p) refl
  is_empty-months (m ∷ months) [] p e = absurd (cons≢nil (e refl))
  is_empty-months (m ∷ months) (x ∷ xs) p e = ground arith

-- An answer of the server.
abbrev pub answered : {A : Type 0} → List A → HistoryQuery A
answered rows = record { is_loading = false; is_error = false; data_or_none = some rows }

is_empty-group_charges :
    (locale : Locale) (charges : List UserCharge) (b : Bool)
    → (length (group_charges locale charges b) == 0) ≡ (length charges == 0)
unfolding group_charges charge_months
is_empty-group_charges locale charges b =
    is_empty-map _ (charge_months locale charges)
    ∙ (is_empty-months (charge_months locale charges) charges (charge_months-exact locale charges).2
        (λ e. rw e refl))

is_empty-group_top_ups :
    (locale : Locale) (top_ups : List UserTopUp)
    → (length (group_top_ups locale top_ups) == 0) ≡ (length top_ups == 0)
unfolding group_top_ups top_up_months
is_empty-group_top_ups locale top_ups =
    is_empty-map _ (top_up_months locale top_ups)
    ∙ (is_empty-months (top_up_months locale top_ups) top_ups (top_up_months-exact locale top_ups).2
        (λ e. rw e refl))

is_empty-group_runs :
    (locale : Locale) (runs : List TariffPlanBillingRun)
    → (length (group_runs locale runs) == 0) ≡ (length runs == 0)
unfolding group_runs run_months
is_empty-group_runs locale runs =
    is_empty-map _ (run_months runs)
    ∙ (is_empty-months (run_months runs) runs (run_months-exact runs).2 (λ e. rw e refl))

-- With an answer of the server, the window of the charges shows the months of all of them, and says that there were
-- none exactly if the server gave none.
pub charge_window-body :
    (locale : Locale) (mode : HistoryMode) (name : String) (total : Option String)
    (charges : List UserCharge)
    → (charge_window locale mode name total (answered charges)).body ≡ (
        if length charges == 0
        then says_empty "У пользователя пока не было списаний."
        else shows (group_charges locale charges (includes_tariff_plan mode), charge_labels mode))
unfolding charge_window window_body fetched
charge_window-body locale mode name total charges =
    rw (is_empty-group_charges locale charges (includes_tariff_plan mode)) refl

-- The same of the window of the top-ups.
pub top_up_window-body :
    (locale : Locale) (name : String) (total : Option String) (top_ups : List UserTopUp)
    → (top_up_window locale name total (answered top_ups)).body ≡ (
        if length top_ups == 0
        then says_empty "У пользователя пока не было пополнений."
        else shows (group_top_ups locale top_ups, top_up_labels))
unfolding top_up_window window_body fetched
top_up_window-body locale name total top_ups = rw (is_empty-group_top_ups locale top_ups) refl

-- The same of the window of the billing runs of a plan.
pub billing_window-body :
    (locale : Locale) (name : String) (runs : List TariffPlanBillingRun)
    → (billing_window locale name (answered runs)).body ≡ (
        if length runs == 0
        then says_empty "По тарифному плану пока не было списаний."
        else shows (group_runs locale runs, billing_labels))
unfolding billing_window window_body fetched
billing_window-body locale name runs = rw (is_empty-group_runs locale runs) refl
