-- ===== src/Users/VpnProfiles.antt =====
-- frontend/src/pages/UsersPage/components/VpnProfilesCell/VpnProfilesCell.tsx: the tooltip with the VPN
-- profiles of an account. Lengths are whole pixels on a screen; a box gives half of its width, so that
-- its middle is whole too.
use vpnshiki.Entities.Users.{VpnProfileStatus, VpnProfile}
use vpnshiki.Prelude.Int.{ℤ, pos, sub_ℕ, ltb_ℤ, leb_ℤ, ◌+ℤ◌}
use vpnshiki.Prelude.{
  ℕ, none, some, [], ◌∷◌, true, false, Bool, List, Option, if◌then◌else◌, ◌+◌, ◌≡◌, String, leb,
  map, not, ◌≤◌, ◌%◌, ◌*◌, arith, ◌&&◌, ◌++◌, ◌-◌, length, ◌==◌,
}
use vpnshiki.Text.{decimal, Text, codes}

unfoldable pub profile_count_label : ℕ → Text
unfolding decimal
profile_count_label count =
    let modulo100 = count % 100 in
    let modulo10 = count % 10 in
    if leb 11 modulo100 && leb modulo100 14
    then decimal count ++ codes " VPN-профилей"
    else if modulo10 == 1
    then decimal count ++ codes " VPN-профиль"
    else if leb 2 modulo10 && leb modulo10 4
    then decimal count ++ codes " VPN-профиля"
    else decimal count ++ codes " VPN-профилей"

unfoldable pub trigger_label : Option (List VpnProfile) → Text → Text
unfolding profile_count_label
trigger_label none user_name =
    codes "Данные VPN-профилей пользователя " ++ user_name ++ codes " недоступны"
trigger_label (some []) user_name = codes "Нет VPN-профилей у пользователя " ++ user_name
trigger_label (some (p ∷ ps)) user_name =
    profile_count_label (length (p ∷ ps)) ++ codes " у пользователя " ++ user_name

pub data Placement : Type 0 where
  above below : Placement

-- A box on the screen, below and to the right of its corner.
pub record Box : Type 0 where
  pub left : ℕ
  pub top : ℕ
  pub half_width : ℕ
  pub height : ℕ

pub record TooltipPosition : Type 0 where
  pub left : ℤ
  pub placement : Placement
  pub top : ℕ

abbrev pub viewport_margin : ℕ
viewport_margin = 12

abbrev pub tooltip_gap : ℕ
tooltip_gap = 8

abbrev max_ℤ : ℤ → ℤ → ℤ
max_ℤ a b = if ltb_ℤ a b then b else a

abbrev min_ℤ : ℤ → ℤ → ℤ
min_ℤ a b = if ltb_ℤ b a then b else a

-- `updatePosition`, from the boxes of the trigger and the tooltip and the width of the window.
unfoldable pub tooltip_position : ℕ → Box → Box → TooltipPosition
tooltip_position window_width trigger tooltip =
    let centered_left = sub_ℕ (trigger.left + trigger.half_width) tooltip.half_width in
    let fits_above = leb (viewport_margin + tooltip.height + tooltip_gap) trigger.top in
    record {
      left =
          min_ℤ (sub_ℕ window_width (2 * tooltip.half_width + viewport_margin))
            (max_ℤ (pos viewport_margin) centered_left);
      placement = if fits_above then above else below;
      top =
          if fits_above
          then trigger.top - tooltip.height - tooltip_gap
          else trigger.top + trigger.height + tooltip_gap;
    }

-- What happens to the trigger; `touched` is a touch on it.
pub data TooltipEvent : Type 0 where
  entered left_trigger focused blurred touched escaped pressed_outside : TooltipEvent

-- `open`
unfoldable pub tooltip_step : Bool → TooltipEvent → Bool
tooltip_step shown entered = true
tooltip_step shown left_trigger = false
tooltip_step shown focused = true
tooltip_step shown blurred = false
tooltip_step shown touched = not shown
tooltip_step shown escaped = false
tooltip_step shown pressed_outside = false

abbrev online_label : VpnProfileStatus → String
online_label VpnProfileStatus.online = "В сети"
online_label VpnProfileStatus.offline = "Не в сети"

-- What the tooltip says of a profile: its label, whether it is online, whether it is enabled.
unfoldable pub profile_texts : VpnProfile → String × String × String
profile_texts profile =
    (profile.label, online_label profile.status, if profile.enabled then "Включён" else "Выключен")

pub data TooltipContent : Type 0 where
  unavailable no_profiles : TooltipContent
  listed : List (String × String × String) → TooltipContent

unfoldable pub tooltip_content : Option (List VpnProfile) → TooltipContent
unfolding profile_texts
tooltip_content none = unavailable
tooltip_content (some []) = no_profiles
tooltip_content (some (p ∷ ps)) = listed (map profile_texts (p ∷ ps))

-- The tooltip never covers the trigger, ends within the window with a margin on the right, and begins
-- within it with a margin on the left if it is narrow enough; above the trigger it has a margin at the top.
pub tooltip_position_lem :
    (window_width : ℕ) (trigger tooltip : Box)
    → let p = tooltip_position window_width trigger tooltip in
      (p.placement ≡ above
        → (viewport_margin ≤ p.top) × (p.top + tooltip.height + tooltip_gap ≡ trigger.top))
      × (p.placement ≡ below → p.top ≡ trigger.top + trigger.height + tooltip_gap)
      × (leb_ℤ (p.left +ℤ pos (2 * tooltip.half_width + viewport_margin)) (pos window_width) ≡ true)
      × (2 * tooltip.half_width + 2 * viewport_margin ≤ window_width
          → leb_ℤ (pos viewport_margin) p.left ≡ true)
unfolding tooltip_position ◌+ℤ◌
tooltip_position_lem window_width trigger tooltip =
    (ground arith, ground arith, ground arith, ground arith)
