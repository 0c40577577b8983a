-- ===== src/Overview/Page.antt =====
-- frontend/src/pages/OverviewPage/OverviewPage.tsx with its ParticipationPulse and ActivationControl: what the
-- page shows by the status of the account.
use vpnshiki.Api.{unexpected, api, ok, err, Result, Fault}
use vpnshiki.Prelude.{
  ℕ, none, some, true, false, refl, Bool, Option, String, if◌then◌else◌, not, str_eq, ◌&&◌, ◌+◌,
  ◌≡◌, ◌||◌, ◌↔◌, arith,
}
use vpnshiki.Entities.Users.{AccountStatus, User, AccountBlockSource}
use vpnshiki.Text.{Text, codes}
use vpnshiki.Overview.{can_activate, pulse_texts}
use vpnshiki.Money.{is_negative_money}

-- `canTopUp`
unfoldable pub can_top_up : AccountStatus → Option AccountBlockSource → Bool
can_top_up AccountStatus.blocked (some AccountBlockSource.admin) = false
can_top_up _ _ = true

abbrev is_active : AccountStatus → Bool
is_active AccountStatus.active = true
is_active _ = false

-- `dailyCharge`: `none` is `undefined`, `some none` is `null`. The query runs for an active account alone.
unfoldable pub page_daily_charge :
    AccountStatus → (is_pending : Bool) → Option Text → Option (Option Text)
page_daily_charge status is_pending charge =
    if is_active status && is_pending then none else some charge

pub data ChargeBox : Type 0 where
  charge_loading : ChargeBox
  daily_charge : Text → ChargeBox
  activation_control : ChargeBox
  no_box : ChargeBox

module _ (money : Text → Text) where
  abbrev charge_text : Option Text → Text
  charge_text none = codes "—"
  charge_text (some amount) = money amount

  unfoldable pub charge_box : AccountStatus → Option (Option Text) → ChargeBox
  charge_box AccountStatus.active none = charge_loading
  charge_box AccountStatus.active (some charge) = daily_charge (charge_text charge)
  charge_box AccountStatus.paused charge = activation_control
  charge_box AccountStatus.blocked charge = no_box

  -- The parts of the page that depend on the account, with `user`'s name, balance and limit as they are.
  pub record OverviewView : Type 0 where
    pub texts : String × String × String
    pub box : ChargeBox
    pub balance : Text
    pub balance_is_negative : Bool
    pub limit : Text
    pub top_up_button : Bool
    pub recommends_clients : Bool

  unfoldable pub overview_view : User → (is_pending : Bool) → Option Text → OverviewView
  unfolding can_top_up page_daily_charge charge_box pulse_texts is_negative_money
  overview_view user is_pending charge = record {
    texts = pulse_texts user.account_status user.block_source;
    box = charge_box user.account_status (page_daily_charge user.account_status is_pending charge);
    balance = money (codes user.balance);
    balance_is_negative = is_negative_money (codes user.balance);
    limit = money (codes user.negative_balance_limit);
    top_up_button = can_top_up user.account_status user.block_source;
    recommends_clients = is_active user.account_status;
  }

-- The mutation of the switch: whether it is under way, and what it was rejected with.
pub record Activation : Type 0 where
  pub is_pending : Bool
  pub error : Option Fault

pub data ActivationEvent : Type 0 where
  switch_clicked : ActivationEvent
  answered : Result User → ActivationEvent

-- Beside the mutation: the account in the store, and how often a request was sent.
pub record ActivationState : Type 0 where
  pub mutation : Activation
  pub account : User
  pub sent : ℕ
  pub charge_invalidated : ℕ

unfoldable pub activation_error : Option Fault → Option String
activation_error none = none
activation_error (some unexpected) = some "Не удалось активировать аккаунт"
activation_error (some (api e)) = some e.message

unfoldable pub switch_disabled : ActivationState → Bool
unfolding can_activate
switch_disabled s =
    not (can_activate (codes s.account.balance) (codes s.account.negative_balance_limit))
    || s.mutation.is_pending

unfoldable pub activation_step : ActivationState → ActivationEvent → ActivationState
unfolding switch_disabled
activation_step s switch_clicked =
    if switch_disabled s
    then s
    else record s { mutation = record { is_pending = true; error = none }; sent = s.sent + 1 }
activation_step s (answered r) =
    if s.mutation.is_pending
    then elim r [
      | ok user ↦ record {
        mutation = record { is_pending = false; error = none };
        account = user;
        sent = s.sent;
        charge_invalidated = s.charge_invalidated + 1;
      }
      | err e ↦ record s { mutation = record { is_pending = false; error = some e } }
    ]
    else s

-- The title, the note beneath it, and whether the note is an alert.
unfoldable pub activation_note : ActivationState → String × Option String
unfolding can_activate activation_error
activation_note s =
    let allowed = can_activate (codes s.account.balance) (codes s.account.negative_balance_limit) in
    (
      if s.mutation.is_pending then "Активируем аккаунт" else "Активировать аккаунт",
      if allowed then activation_error s.mutation.error else some "Пополните баланс для активации",
    )

abbrev pub advises_top_up : String × String × String → Bool
advises_top_up texts = str_eq texts.2 "Пополните баланс для разблокировки."

by_status :
    (status : AccountStatus) (source : Option AccountBlockSource)
    → (advises_top_up (pulse_texts status source) ≡ true → can_top_up status source ≡ true)
      × ((can_top_up status source ≡ false)
          ↔ ((status ≡ AccountStatus.blocked) × (source ≡ some AccountBlockSource.admin)))
      × (can_top_up status source ≡ false
          → pulse_texts status source
            ≡ ("Заблокирован", "Аккаунт заблокирован", "Обратитесь к администратору."))
unfolding can_top_up pulse_texts
by_status AccountStatus.blocked (some AccountBlockSource.admin) =
    (λ h. cc, (λ h. (refl, refl), λ h. refl), λ h. refl)
by_status AccountStatus.blocked (some AccountBlockSource.billing) =
    (λ h. refl, (λ h. cc, λ (_, h). cc), λ h. cc)
by_status AccountStatus.blocked none = ground arith
by_status AccountStatus.active source = ground arith
by_status AccountStatus.paused source = ground arith

-- Whoever is told to top up the balance to be unblocked has the button for it; the button is missing exactly for
-- an account that the administrator blocked, which is told to turn to the administrator.
pub overview_view-top_up_button :
    (money : Text → Text) (user : User) (is_pending : Bool) (charge : Option Text)
    → let view = overview_view money user is_pending charge in
      (advises_top_up view.texts ≡ true → view.top_up_button ≡ true)
      × ((view.top_up_button ≡ false) ↔ (
          (user.account_status ≡ AccountStatus.blocked)
          × (user.block_source ≡ some AccountBlockSource.admin)))
      × (view.top_up_button ≡ false
          → view.texts ≡ ("Заблокирован", "Аккаунт заблокирован", "Обратитесь к администратору."))
unfolding overview_view
overview_view-top_up_button money user is_pending charge =
    by_status user.account_status user.block_source
