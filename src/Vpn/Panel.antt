-- ===== src/Vpn/Panel.antt =====
-- frontend/src/pages/OverviewPage/components/VpnAccessPanel/VpnAccessPanel.tsx: the panel with the
-- profiles of an account. The profiles are those that the query gave; `collate` orders protocols.
pub mod Laws
pub mod Keys
pub mod View
use vpnshiki.Prelude.{
  ℕ, none, some, [], ◌∷◌, zero, suc, true, false, inl, inr, refl, Bool, List, Option, String, take,
  ◌%◌, find, get_elem?, if◌then◌else◌, str_eq, leb, ltb, length, ◌&&◌, ◌++◌, ◌==◌,
}
use vpnshiki.Api.{Fault}
use vpnshiki.Vpn.Tabs.{TabKey, selected_by_key, email_at}
use vpnshiki.Text.{Text, decimal, codes}
use vpnshiki.Timers.{flash, idle, Flash, elapse}
use Prim.Native.Nat.{Ordering}
use vpnshiki.Entities.VpnAccess.{VpnAccess, VpnClientProfile, VpnConnection}
use vpnshiki.Vpn.Connections.{sorted_connections}

unfoldable pub profile_count_label : ℕ → Text
unfolding decimal
profile_count_label count =
    let remainder = count % 100 in
    if leb 11 remainder && leb remainder 14
    then decimal count ++ codes " профилей"
    else if count % 10 == 1
    then decimal count ++ codes " профиль"
    else if leb 2 (count % 10) && leb (count % 10) 4
    then decimal count ++ codes " профиля"
    else decimal count ++ codes " профилей"

-- `accessQuery`
pub data AccessQuery : Type 0 where
  pending : AccessQuery
  failed : Fault → AccessQuery
  loaded : VpnAccess → AccessQuery

pub record QrTarget : Type 0 where
  pub title : Text
  pub url : String

-- `copied` holds what was given to the clipboard, the last first.
pub record VpnPanel : Type 0 where
  pub qr_target : Option QrTarget
  pub notice : Flash (Option String)
  pub preferred_email : Option String
  pub copied : List String

abbrev pub initial : VpnPanel
initial = record { qr_target = none; notice = idle none; preferred_email = none; copied = [] }

abbrev has_email : Option String → VpnClientProfile → Bool
has_email none profile = false
has_email (some email) profile = str_eq profile.email email

abbrev or_first : Option VpnClientProfile → List VpnClientProfile → Option VpnClientProfile
or_first none profiles = get_elem? profiles 0
or_first (some profile) profiles = some profile

-- `selectedProfile`
unfoldable pub selected_profile : List VpnClientProfile → Option String → Option VpnClientProfile
selected_profile profiles preferred = or_first (find (has_email preferred) profiles) profiles

abbrev pub notice_duration : ℕ
notice_duration = 2200

abbrev copy_notice : Bool → String
copy_notice true = "Ссылка скопирована"
copy_notice false = "Не удалось скопировать ссылку"

-- `copy` after the clipboard has answered.
unfoldable pub end_copy : VpnPanel → Bool → VpnPanel
unfolding flash
end_copy s successful = record s {
  notice = flash notice_duration (some (copy_notice successful)) s.notice;
}

unfoldable pub copy : String → VpnPanel → VpnPanel
copy url s = record s { copied = url ∷ s.copied }

unfoldable pub select_profile : Option String → VpnPanel → VpnPanel
select_profile none s = s
select_profile (some email) s = record s { preferred_email = some email; qr_target = none }

abbrev pub show_qr : Text → String → VpnPanel → VpnPanel
show_qr title url s = record s { qr_target = some (record { title = title; url = url }) }

-- Buttons with what they stand at, and what comes in from outside. A connection is counted in the
-- list that is shown.
pub data PanelEvent : Type 0 where
  tab_clicked : ℕ → PanelEvent
  tab_key : ℕ → TabKey → PanelEvent
  subscription_copy subscription_qr qr_copy qr_closed : PanelEvent
  connection_copy connection_qr : ℕ → PanelEvent
  copy_ended : (successful : Bool) → PanelEvent
  millisecond : PanelEvent

module _ (collate : Text → Text → Ordering) (profiles : List VpnClientProfile) where
  unfoldable pub subscription_qr_title : VpnClientProfile → Text
  subscription_qr_title profile =
      if ltb 1 (length profiles)
      then codes "Общая подписка — " ++ profile.label
      else codes "Общая подписка"

  copy_connection : Option VpnConnection → VpnPanel → VpnPanel
  unfolding copy
  copy_connection none s = s
  copy_connection (some c) s = copy c.url s

  show_connection_qr : Option VpnConnection → VpnPanel → VpnPanel
  show_connection_qr none s = s
  show_connection_qr (some c) s = show_qr c.name c.url s

  copy_target : Option QrTarget → VpnPanel → VpnPanel
  unfolding copy
  copy_target none s = s
  copy_target (some target) s = copy target.url s

  unfoldable pub shown_connection : VpnClientProfile → ℕ → Option VpnConnection
  unfolding sorted_connections
  shown_connection profile i = get_elem? (sorted_connections collate profile.connections) i

  -- The tabs and the buttons stand there with a selected profile alone, the tabs with two profiles.
  on_profile : VpnPanel → PanelEvent → Option VpnClientProfile → VpnPanel
  unfolding end_copy copy select_profile selected_by_key elapse subscription_qr_title
      shown_connection copy_connection show_connection_qr copy_target
  on_profile s (tab_clicked i) (some profile) =
      if ltb 1 (length profiles) then select_profile (email_at profiles i) s else s
  on_profile s (tab_key i key) (some profile) =
      if ltb 1 (length profiles) then select_profile (selected_by_key profiles i key) s else s
  on_profile s subscription_copy (some profile) = copy profile.subscription_url s
  on_profile s subscription_qr (some profile) =
      show_qr (subscription_qr_title profile) profile.subscription_url s
  on_profile s (connection_copy i) (some profile) = copy_connection (shown_connection profile i) s
  on_profile s (connection_qr i) (some profile) = show_connection_qr (shown_connection profile i) s
  on_profile s qr_copy (some profile) = copy_target s.qr_target s
  on_profile s qr_closed (some profile) = record s { qr_target = none }
  on_profile s (copy_ended successful) profile = end_copy s successful
  on_profile s millisecond profile = record s { notice = elapse none s.notice }
  on_profile s e none = s

  unfoldable pub panel_step : VpnPanel → PanelEvent → VpnPanel
  unfolding on_profile selected_profile
  panel_step s e = on_profile s e (selected_profile profiles s.preferred_email)

  unfoldable pub panel_run : VpnPanel → List PanelEvent → VpnPanel
  unfolding panel_step
  panel_run s [] = s
  panel_run s (e ∷ es) = panel_run (panel_step s e) es
