-- ===== src/Shell/Menu.antt =====
-- frontend/src/widgets/AppShell/components/UserMenu/UserMenu.tsx: the menu of the user, with the windows
-- that it opens. It is there for a user who is signed in.
pub mod Message
use vpnshiki.Prelude.{
  ℕ, none, some, [], ◌∷◌, true, false, Bool, List, String, Option, if◌then◌else◌, not, str_eq, take,
  ◌+◌, Bool-cases, inl, sym, inr,
}
use vpnshiki.Timers.Recent.{Latest, older, recent, Follows, elapse-Follows, Follows-recent}
use vpnshiki.Text.{Text}
use vpnshiki.Timers.{elapse, flash, idle, Flash}

pub data MenuFocus : Type 0 where
  elsewhere trigger first_item : MenuFocus

-- `logouts` counts the calls of `logout`.
pub record UserMenu : Type 0 where
  pub is_open : Bool
  pub charge_history_open : Bool
  pub top_up_history_open : Bool
  pub password_open : Bool
  pub password_success : Flash String
  pub focus : MenuFocus
  pub logouts : ℕ

abbrev pub initial : UserMenu
initial = record {
  is_open = false;
  charge_history_open = false;
  top_up_history_open = false;
  password_open = false;
  password_success = idle "";
  focus = elsewhere;
  logouts = 0;
}

abbrev pub success_duration : ℕ
success_duration = 5000

abbrev pub success_message : String
success_message = "Пароль изменён. Остальные сессии завершены."

-- `setPasswordSuccess` and the effect that follows a change of the message: setting the message that stands
-- there already changes nothing.
unfoldable pub show_success : Flash String → Flash String
unfolding flash
show_success s =
    if str_eq s.value success_message then s else flash success_duration success_message s

pub data MenuEvent : Type 0 where
  trigger_clicked pointer_outside escape_pressed : MenuEvent
  charges_clicked top_ups_clicked password_clicked logout_clicked : MenuEvent
  charges_closed top_ups_closed password_closed password_changed : MenuEvent
  millisecond : MenuEvent

-- `setOpen`; the effect moves the focus to the first item when the menu opens.
abbrev set_open : Bool → UserMenu → UserMenu
set_open true s = record s { is_open = true; focus = first_item }
set_open false s = record s { is_open = false }

-- The items and the listeners on the document are there while the menu is open.
unfoldable pub menu_step : UserMenu → MenuEvent → UserMenu
unfolding show_success elapse
menu_step s trigger_clicked = set_open (not s.is_open) s
menu_step s pointer_outside = if s.is_open then set_open false s else s
menu_step s escape_pressed = if s.is_open then record s { is_open = false; focus = trigger } else s
menu_step s charges_clicked =
    if s.is_open then record s { is_open = false; charge_history_open = true } else s
menu_step s top_ups_clicked =
    if s.is_open then record s { is_open = false; top_up_history_open = true } else s
menu_step s password_clicked =
    if s.is_open then record s { is_open = false; password_open = true } else s
menu_step s logout_clicked =
    if s.is_open then record s { is_open = false; logouts = s.logouts + 1 } else s
menu_step s charges_closed = record s { charge_history_open = false }
menu_step s top_ups_closed = record s { top_up_history_open = false }
menu_step s password_closed = record s { password_open = false }
menu_step s password_changed = record s { password_success = show_success s.password_success }
menu_step s millisecond = record s { password_success = elapse "" s.password_success }

unfoldable pub menu_run : UserMenu → List MenuEvent → UserMenu
unfolding menu_step
menu_run s [] = s
menu_run s (e ∷ es) = menu_run (menu_step s e) es

-- What is shown of the user: nothing when signed out, else the first letter.
unfoldable pub avatar : (Text → Text) → Option Text → Option Text
avatar upper none = none
avatar upper (some name) = some (upper (take 1 name))
