-- ===== src/Ui/FieldSelect/View.antt =====
-- What frontend/src/shared/ui/FieldSelect/FieldSelect.tsx shows: the control, and the popup with its options.

use vpnshiki.Prelude.{
  ℕ, none, some, [], ◌∷◌, suc, true, false, List, Option, Bool, String, ◌==◌, get_elem?, str_eq,
  if◌then◌else◌,
}
use vpnshiki.Text.{Text}
use vpnshiki.Ui.FieldSelect.{FieldSelectOption, FieldSelect, selected_index}

pub record OptionLine : Type 0 where
  pub label : Text
  pub is_selected : Bool
  pub is_active : Bool
  pub is_disabled : Bool

pub record ControlView : Type 0 where
  pub text : Text
  pub is_placeholder : Bool
  pub expanded : Bool
  pub active_descendant : Option ℕ
  pub disabled : Bool

abbrev active_at : Option ℕ → ℕ → Bool
active_at none i = false
active_at (some j) i = i == j

module _ (options : List FieldSelectOption) (value : String) where
  unfoldable pub option_lines : Option ℕ → ℕ → List FieldSelectOption → List OptionLine
  option_lines active i [] = []
  option_lines active i (o ∷ os) =
      record {
        label = o.label;
        is_selected = str_eq o.value value;
        is_active = active_at active i;
        is_disabled = o.disabled;
      }
      ∷ option_lines active (suc i) os

  -- The popup is there while it is open.
  unfoldable pub popup : FieldSelect → Option (List OptionLine)
  unfolding option_lines
  popup s = if s.open_popup then some (option_lines s.active_index 0 options) else none

  abbrev selected_option : Option ℕ → Option FieldSelectOption
  selected_option none = none
  selected_option (some i) = get_elem? options i

  abbrev label_or : Text → Option FieldSelectOption → Text
  label_or placeholder none = placeholder
  label_or placeholder (some o) = o.label

  abbrev is_missing : Option FieldSelectOption → Bool
  is_missing none = true
  is_missing (some o) = false

  unfoldable pub control : (placeholder : Text) (disabled : Bool) → FieldSelect → ControlView
  unfolding selected_index
  control placeholder disabled s =
      let selected = selected_option (selected_index value options) in
      record {
        text = label_or placeholder selected;
        is_placeholder = is_missing selected;
        expanded = s.open_popup;
        active_descendant = if s.open_popup then s.active_index else none;
        disabled = disabled;
      }
