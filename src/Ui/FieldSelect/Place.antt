-- ===== src/Ui/FieldSelect/Place.antt =====
-- Where the popup of frontend/src/shared/ui/FieldSelect/FieldSelect.tsx stands on the screen. Lengths are whole
-- pixels, and the control is not beyond the upper or the left edge of the window.
use vpnshiki.Prelude.{
  ℕ, true, false, Bool, if◌then◌else◌, ltb, ◌*◌, ◌≤◌, ◌+◌, ◌&&◌, ◌≡◌, arith, ◌-◌, ◌==◌,
}
use vpnshiki.Prelude.Int.{ltb_ℤ, ℤ, pos, sub_ℕ}

abbrev pub popup_gap : ℕ
popup_gap = 7

abbrev pub popup_max_height : ℕ
popup_max_height = 240

abbrev pub viewport_gap : ℕ
viewport_gap = 12

-- The control's `getBoundingClientRect()`, and the window's inner size.
pub record ControlRect : Type 0 where
  pub left : ℕ
  pub top : ℕ
  pub bottom : ℕ
  pub width : ℕ

pub record WindowSize : Type 0 where
  pub inner_width : ℕ
  pub inner_height : ℕ

pub record PopupPosition : Type 0 where
  pub top : ℕ
  pub left : ℕ
  pub width : ℕ
  pub max_height : ℕ
  pub above : Bool

abbrev larger : ℕ → ℕ → ℕ
larger a b = if ltb a b then b else a

abbrev pub smaller : ℕ → ℕ → ℕ
smaller a b = if ltb b a then b else a

abbrev pub estimated_height : ℕ → ℕ
estimated_height options = smaller popup_max_height (options * 44 + 12)

abbrev pub space_below : WindowSize → ControlRect → ℤ
space_below window rect = sub_ℕ window.inner_height (rect.bottom + viewport_gap)

abbrev pub space_above : ControlRect → ℤ
space_above rect = sub_ℕ rect.top viewport_gap

-- At least 80, so that a space below zero counts as none.
abbrev height_within : ℕ → ℕ
height_within space = larger 80 (smaller popup_max_height space)

-- `updatePopupPosition`
unfoldable pub popup_position : ℕ → WindowSize → ControlRect → PopupPosition
popup_position options window rect =
    let estimated = estimated_height options in
    let below = space_below window rect in
    let above = space_above rect in
    let place_above = ltb_ℤ below (pos (smaller estimated 150)) && ltb_ℤ below above in
    let max_height = height_within (
      if place_above
      then rect.top - viewport_gap
      else window.inner_height - (rect.bottom + viewport_gap)) in
    let width = if rect.width == 0 then 240 else rect.width in
    record {
      top =
          if place_above
          then larger viewport_gap (rect.top - popup_gap - smaller estimated max_height)
          else rect.bottom + popup_gap;
      left =
          smaller (larger viewport_gap rect.left)
            (larger viewport_gap (window.inner_width - width - viewport_gap));
      width = width;
      max_height = max_height;
      above = place_above;
    }

-- The popup keeps its margin on the left, and on the right in a window that is wide enough; below the control it
-- begins beneath it; above it, with 92 pixels of space there, a popup of the estimated height ends above it.
pub popup_position_lem :
    (options : ℕ) (window : WindowSize) (rect : ControlRect)
    → let p = popup_position options window rect in
      (viewport_gap ≤ p.left)
      × (p.width + 2 * viewport_gap ≤ window.inner_width
          → p.left + p.width + viewport_gap ≤ window.inner_width)
      × (80 ≤ p.max_height)
      × (p.max_height ≤ popup_max_height)
      × (p.above ≡ false → p.top ≡ rect.bottom + popup_gap)
      × (p.above ≡ true
          → 92 ≤ rect.top
          → (viewport_gap ≤ p.top)
            × (p.top + smaller (estimated_height options) p.max_height ≤ rect.top))
unfolding popup_position
popup_position_lem options window rect = (
  ground arith,
  ground arith,
  ground arith,
  ground arith,
  ground arith,
  λ h k. ground (arith, h, k),
)
