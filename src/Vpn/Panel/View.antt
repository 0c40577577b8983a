-- ===== src/Vpn/Panel/View.antt =====
-- What the panel of
-- frontend/src/pages/OverviewPage/components/VpnAccessPanel/VpnAccessPanel.tsx shows.
use vpnshiki.Api.{unexpected, api, Fault}
use vpnshiki.Vpn.Panel.{
  pending, failed, loaded, profile_count_label, selected_profile, AccessQuery, VpnPanel, QrTarget,
}
use vpnshiki.Prelude.{
  none, some, true, false, refl, Bool, String, Option, if◌then◌else◌, List, str_eq, ◌||◌, not, ◌&&◌,
  ◌≡◌, length, ◌↔◌, ltb, arith,
}
use vpnshiki.Text.{Text}
use Prim.Native.Nat.{Ordering}
use vpnshiki.Entities.Users.{AccountStatus}
use vpnshiki.Vpn.Tabs.{Tab, tabs}
use vpnshiki.Vpn.Connections.{ListBody, connection_list}
use vpnshiki.Entities.VpnAccess.{VpnClientProfile}

-- What stands in the panel when profiles are shown; `tab_list` is there with several profiles.
pub record ProfileView : Type 0 where
  pub count_label : Text
  pub tab_list : Option (List Tab)
  pub connections : ListBody
  pub qr : Option QrTarget
  pub notice : Option String

pub data PanelView : Type 0 where
  unavailable : (locked : Bool) → PanelView
  loading : PanelView
  trouble : (title description : String) (retry : Bool) → PanelView
  profile_view : ProfileView → PanelView

abbrev pub offers_retry : PanelView → Bool
offers_retry (trouble title description retry) = retry
offers_retry _ = false

abbrev ask_admin : String
ask_admin = "Обратитесь к администратору — он проверит профиль и настройки панели."

abbrev pub has_code : String → Fault → Bool
has_code code unexpected = false
has_code code (api e) = str_eq e.code code

unfoldable pub trouble_view : Fault → PanelView
trouble_view e =
    let not_found = has_code "vpn_profile_not_found" e in
    let unconfigured = has_code "vpn_integration_unconfigured" e in
    trouble
      (if not_found
        then "VPN-профиль не найден"
        else if unconfigured
        then "Интеграция VPN ещё не настроена"
        else "Не удалось загрузить VPN-подключения")
      (if not_found || unconfigured
        then ask_admin
        else "Проверьте подключение и попробуйте запросить данные ещё раз.")
      (not not_found && not unconfigured)

both_false : (a b : Bool) → (not a && not b) ≡ true → (a ≡ false) × (b ≡ false)
both_false a b h = ground (arith, h)

module _ (upper lower : Text → Text) (collate : Text → Text → Ordering) where
  selected_view : List VpnClientProfile → VpnPanel → Option VpnClientProfile → PanelView
  unfolding profile_count_label tabs connection_list
  selected_view profiles s none = trouble "VPN-профиль не найден" ask_admin false
  selected_view profiles s (some profile) = profile_view (record {
    count_label = profile_count_label (length profiles);
    tab_list = if ltb 1 (length profiles) then some (tabs profile.email profiles) else none;
    connections = connection_list upper lower collate profile.connections;
    qr = s.qr_target;
    notice = s.notice.value;
  })

  query_view : AccessQuery → VpnPanel → PanelView
  unfolding trouble_view selected_view selected_profile
  query_view pending s = loading
  query_view (failed e) s = trouble_view e
  query_view (loaded access) s =
      selected_view access.profiles s (selected_profile access.profiles s.preferred_email)

  unfoldable pub panel_view : AccountStatus → AccessQuery → VpnPanel → PanelView
  unfolding query_view
  panel_view AccountStatus.blocked query s = unavailable true
  panel_view AccountStatus.paused query s = unavailable false
  panel_view AccountStatus.active query s = query_view query s

  selected_view-no_retry :
      (profiles : List VpnClientProfile) (s : VpnPanel) (o : Option VpnClientProfile)
      → offers_retry (selected_view profiles s o) ≡ false
  unfolding selected_view
  selected_view-no_retry profiles s none = refl
  selected_view-no_retry profiles s (some p) = refl

  -- The panel offers to repeat the request exactly for an active account whose query failed for another
  -- reason than a missing profile or a missing configuration.
  pub panel_view-offers_retry_iff :
      (status : AccountStatus) (query : AccessQuery) (s : VpnPanel)
      → (offers_retry (panel_view status query s) ≡ true) ↔ (
          (status ≡ AccountStatus.active)
          × (e : Fault) × (query ≡ failed e)
          × (has_code "vpn_profile_not_found" e ≡ false)
          × (has_code "vpn_integration_unconfigured" e ≡ false))
  unfolding panel_view
  panel_view-offers_retry_iff AccountStatus.blocked query s = (λ h. cc, λ h. cc)
  panel_view-offers_retry_iff AccountStatus.paused query s = (λ h. cc, λ h. cc)
  panel_view-offers_retry_iff AccountStatus.active pending s = (λ h. cc, λ (_, e, h, _, _). cc)
  panel_view-offers_retry_iff AccountStatus.active (failed e) s = (
    λ h.
        let (p, q) =
          both_false (has_code "vpn_profile_not_found" e)
            (has_code "vpn_integration_unconfigured" e) h in
        (refl, e, refl, p, q),
    λ (_, f, h, p, q). let same : e ≡ f = cc in rw (same, p, q) refl,
  )
  panel_view-offers_retry_iff AccountStatus.active (loaded access) s = (
    λ h. ground (
      arith,
      h,
      selected_view-no_retry access.profiles s (selected_profile access.profiles s.preferred_email),
    ),
    λ (_, e, h, _, _). cc,
  )
