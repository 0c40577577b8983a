-- ===== src/Tests/Vpn.antt =====
-- The panel with the profiles of an account, and the parts of the overview page.

use vpnshiki.Vpn.Panel
use vpnshiki.Prelude.{
  none, some, [], ◌∷◌, true, false, refl, List, String, ◌<◌, Bool, arith, ◌≡◌, eq_iff, ◌↔◌,
}
use vpnshiki.Api.{ApiError, api, Fault}
use vpnshiki.Prelude.Sorting.{IsConsistent, flip, is_gt}
use vpnshiki.Vpn.Panel.Keys.{IsDistinct, panel_step-tab_key}
use vpnshiki.Vpn.Panel.Laws.{IsOwn, panel_run-initial-IsOwn}
use vpnshiki.Overview.Clients.{
  JsonItems, get_recommended_vpn_clients, item, json_array, clients, json_object, field, AllClients,
  json_string, get_recommended_vpn_clients_iff, no_fields, no_items,
}
use vpnshiki.Text.{Text, text_eq, codes, text_eq_iff}
use vpnshiki.Entities.VpnAccess.{VpnClientProfile, VpnConnection}
use vpnshiki.Vpn.CopyButton.{copy_run, copy_ended, millisecond, last_copy, copy_run-recent}
use vpnshiki.Vpn.Tabs.{next_index, arrow_left}
use vpnshiki.Vpn.Panel.View.{offers_retry, panel_view, has_code, panel_view-offers_retry_iff}
use vpnshiki.Vpn.Panel.{
  panel_run, PanelEvent, selected_profile, connection_qr, panel_step, failed, tab_key,
  subscription_qr,
}
use Prim.Native.Nat.{compare, Ordering}
use vpnshiki.Timers.{idle}
use vpnshiki.Entities.Users.{AccountStatus, User, UserRole, AccountBlockSource}
use vpnshiki.Timers.Recent.{recent}
use vpnshiki.Overview.Page.{overview_view, advises_top_up, overview_view-top_up_button}

abbrev connection : String → String → VpnConnection
connection protocol url = record {
  name = codes "Сервер";
  protocol = codes protocol;
  transport = some (codes "tcp");
  security = none;
  url = url;
}

abbrev phone : VpnClientProfile
phone = record {
  email = "phone@vpn";
  label = codes "Телефон";
  subscription_url = "sub://phone";
  connections = connection "hysteria2" "hy://phone" ∷ connection "vless" "vless://phone" ∷ [];
}

abbrev laptop : VpnClientProfile
laptop = record {
  email = "laptop@vpn";
  label = codes "Ноутбук";
  subscription_url = "sub://laptop";
  connections = [];
}

abbrev profiles : List VpnClientProfile
profiles = phone ∷ laptop ∷ []

-- Texts by their first unit.
abbrev by_first : Text → Text → Ordering
by_first [] [] = Ordering.eq
by_first [] (_ ∷ _) = Ordering.lt
by_first (_ ∷ _) [] = Ordering.gt
by_first (a ∷ _) (b ∷ _) = compare a b

by_first-IsConsistent : IsConsistent by_first
by_first-IsConsistent = record { flips = flips; trans = trans }
  where
    flips : (x y : Text) → by_first y x ≡ flip (by_first x y)
    flips [] [] = refl
    flips [] (b ∷ y) = refl
    flips (a ∷ x) [] = refl
    flips (a ∷ x) (b ∷ y) = ground arith

    trans :
        (x y z : Text)
        → is_gt (by_first x y) ≡ false
        → is_gt (by_first y z) ≡ false
        → is_gt (by_first x z) ≡ false
    trans [] [] z h k = k
    trans [] (b ∷ y) [] h k = refl
    trans [] (b ∷ y) (c ∷ z) h k = refl
    trans (a ∷ x) [] z h k = cc
    trans (a ∷ x) (b ∷ y) [] h k = cc
    trans (a ∷ x) (b ∷ y) (c ∷ z) h k = ground arith

abbrev clicks : List PanelEvent
clicks =
    connection_qr 0
    ∷ vpnshiki.Vpn.Panel.qr_copy
    ∷ tab_key 0 arrow_left
    ∷ subscription_qr
    ∷ vpnshiki.Vpn.Panel.copy_ended true
    ∷ []

-- The connection that is shown first is the one with the protocol that sorts last.
clicked : (panel_run by_first profiles Panel.initial clicks).copied ≡ "vless://phone" ∷ []
unfolding panel_run
clicked = refl

panel_run-initial-IsOwn_example :
    IsOwn by_first profiles (panel_run by_first profiles Panel.initial clicks)
panel_run-initial-IsOwn_example = panel_run-initial-IsOwn by_first profiles clicks

profiles-IsDistinct : IsDistinct profiles
profiles-IsDistinct = ((λ h. ground (arith, eq_iff "phone@vpn" "laptop@vpn", h), tt), (tt, tt))

left_of_first : next_index 2 0 arrow_left ≡ some 1
unfolding next_index
left_of_first = refl

panel_step-tab_key_example :
    (1 < 2)
    × (selected_profile profiles
          (panel_step by_first profiles Panel.initial (tab_key 0 arrow_left)).preferred_email
        ≡ some laptop)
panel_step-tab_key_example =
    panel_step-tab_key by_first profiles Panel.initial 0 1 arrow_left profiles-IsDistinct
      (omega arith) (omega arith) left_of_first

copy_run-recent_example :
    (copy_run (idle false) (copy_ended true ∷ millisecond ∷ copy_ended false ∷ [])).value
    ≡ recent 2000 false (last_copy none (copy_ended true ∷ millisecond ∷ copy_ended false ∷ []))
copy_run-recent_example = copy_run-recent (copy_ended true ∷ millisecond ∷ copy_ended false ∷ [])

abbrev missing : ApiError
missing = record { code = "vpn_profile_not_found"; message = ""; status = 404; field_errors = none }

panel_view-offers_retry_iff_example :
    (offers_retry (
        panel_view
          (λ s. s)
          (λ s. s)
          by_first
          AccountStatus.active
          (failed (api missing))
          Panel.initial)
      ≡ true)
    ↔ ((◌≡◌ {A = AccountStatus} AccountStatus.active AccountStatus.active)
        × (e : Fault) × (failed (api missing) ≡ failed e)
        × (has_code "vpn_profile_not_found" e ≡ false)
        × (has_code "vpn_integration_unconfigured" e ≡ false))
panel_view-offers_retry_iff_example =
    panel_view-offers_retry_iff (λ s. s) (λ s. s) by_first AccountStatus.active
      (failed (api missing)) Panel.initial

is_vless : VpnConnection → Bool
unfolding text_eq
is_vless c = text_eq c.protocol (codes "vless")

vless-tie :
    (x y : VpnConnection)
    → is_vless x ≡ true
    → is_vless y ≡ true
    → by_first y.protocol x.protocol ≡ Ordering.eq
unfolding is_vless
vless-tie x y h k =
    rw ((text_eq_iff x.protocol (codes "vless")).0 h, (text_eq_iff y.protocol (codes "vless")).0 k)
      refl

abbrev catalogue : JsonItems
catalogue =
    item
      (json_object
        (field "url" (json_string "https://a") (field "name" (json_string "A") no_fields)))
      no_items

get_recommended_vpn_clients_iff_example :
    (get_recommended_vpn_clients true (some (json_array catalogue)) ≡ clients catalogue) ↔ (
      (◌≡◌ {A = Bool} true true)
      × (some (json_array catalogue) ≡ some (json_array catalogue))
      × AllClients catalogue)
get_recommended_vpn_clients_iff_example =
    get_recommended_vpn_clients_iff true (some (json_array catalogue)) catalogue

abbrev debtor : User
debtor = record {
  id = "u1";
  name = "Анна";
  balance = "-310.00";
  negative_balance_limit = "300.00";
  role = UserRole.user;
  account_status = AccountStatus.blocked;
  block_source = some AccountBlockSource.billing;
  created_at = "2026-01-01";
  updated_at = "2026-01-01";
}

overview_view-top_up_button_example :
    let view = overview_view (λ s. s) debtor false none in
    (advises_top_up view.texts ≡ true → view.top_up_button ≡ true)
    × ((view.top_up_button ≡ false) ↔ (
        (AccountStatus.blocked ≡ AccountStatus.blocked)
        × (some AccountBlockSource.billing ≡ some AccountBlockSource.admin)))
    × (view.top_up_button ≡ false
        → view.texts ≡ ("Заблокирован", "Аккаунт заблокирован", "Обратитесь к администратору."))
overview_view-top_up_button_example = overview_view-top_up_button (λ s. s) debtor false none
