-- ===== src/Ui/TextField.antt =====
-- frontend/src/shared/ui/TextField/TextField.tsx: the message under a field, and the switch that shows a password.
use vpnshiki.Prelude.{
  none, some, ◌∷◌, true, false, Bool, Option, List, String, not, if◌then◌else◌, str_eq, ◌||◌,
}

-- `error ?? hint` if one of them is a text that is not empty, and whether it is an error. An error that is the empty
-- text hides the hint.
abbrev is_shown : Option String → Bool
is_shown none = false
is_shown (some s) = not (str_eq s "")

abbrev first_of : Option String → Option String → Option String
first_of none hint = hint
first_of (some e) hint = some e

unfoldable pub field_message : Option String → Option String → Option (Option String × Bool)
field_message error hint =
    if is_shown error || is_shown hint then some (first_of error hint, is_shown error) else none

-- The state of the component, and what its parent was told, the last first.
pub record PasswordField : Type 0 where
  pub internal_visible : Bool
  pub told : List Bool

-- `controlledVisible ?? internalVisible`
unfoldable pub is_visible : Option Bool → PasswordField → Bool
is_visible none f = f.internal_visible
is_visible (some visible) f = visible

unfoldable pub toggle_visibility : Option Bool → PasswordField → PasswordField
unfolding is_visible
toggle_visibility controlled f =
    let next_visible = not (is_visible controlled f) in
    record { internal_visible = next_visible; told = next_visible ∷ f.told }

unfoldable pub input_type : Bool → String
input_type true = "text"
input_type false = "password"

unfoldable pub action_label : Bool → String
action_label true = "Скрыть пароль"
action_label false = "Показать пароль"
