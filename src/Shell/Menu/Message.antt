-- ===== src/Shell/Menu/Message.antt =====
-- The message after a change of the password, against a specification of when it stands there.
use vpnshiki.Shell.Menu.{
  trigger_clicked, pointer_outside, escape_pressed, charges_clicked, top_ups_clicked,
  password_clicked, logout_clicked, charges_closed, top_ups_closed, password_closed,
  password_changed, millisecond, menu_run, menu_step, show_success, MenuEvent, UserMenu, initial,
  set_open, success_duration, success_message,
}
use vpnshiki.Prelude.{
  none, some, [], ◌∷◌, true, false, refl, Bool, List, String, if◌then◌else◌, not, subst, ◌≡◌,
  str_eq, arith,
}
use vpnshiki.Timers.{Flash, flash}
use vpnshiki.Timers.Recent.{
  Latest, Follows, elapse-Follows, recent, Follows-recent, idle-Follows, older, flash-Follows,
}

-- When the message appeared last: a change of the password is told anew only if the message is gone.
abbrev pub appeared : Latest String → MenuEvent → Latest String
appeared l password_changed =
    if str_eq (recent success_duration "" l) success_message then l else some (success_message, 0)
appeared l millisecond = older l
appeared l _ = l

unfoldable pub appearance : Latest String → List MenuEvent → Latest String
appearance l [] = l
appearance l (e ∷ es) = appearance (appeared l e) es

abbrev FollowsMessage : Flash String → Latest String → Type 0
FollowsMessage s l = Follows success_duration "" s l

if-Follows :
    (b : Bool) (s t : Flash String) (l m : Latest String)
    → (b ≡ true → FollowsMessage s l)
    → (b ≡ false → FollowsMessage t m)
    → FollowsMessage (if b then s else t) (if b then l else m)
if-Follows true s t l m h k = h refl
if-Follows false s t l m h k = k refl

show_success-Follows :
    (s : Flash String) (l : Latest String)
    → FollowsMessage s l
    → FollowsMessage (show_success s) (appeared l password_changed)
unfolding show_success
show_success-Follows s l f =
    subst
      (λ v.
        FollowsMessage (show_success s)
          (if str_eq v success_message then l else some (success_message, 0)))
      (Follows-recent success_duration "" s l f)
      (if-Follows (str_eq s.value success_message) s (flash success_duration success_message s) l
        (some (success_message, 0)) (λ h. f)
        (λ h. flash-Follows success_duration "" s l success_message (omega arith) f))

-- Neither branch of a handler that leaves the message alone changes it.
kept :
    (b : Bool) (s t : UserMenu) (l : Latest String)
    → FollowsMessage s.password_success l
    → FollowsMessage t.password_success l
    → FollowsMessage (if b then s else t).password_success l
kept true s t l f g = f
kept false s t l f g = g

set_open-Follows :
    (b : Bool) (s : UserMenu) (l : Latest String)
    → FollowsMessage s.password_success l
    → FollowsMessage (set_open b s).password_success l
set_open-Follows true s l f = f
set_open-Follows false s l f = f

menu_step-Follows :
    (s : UserMenu) (e : MenuEvent) (l : Latest String)
    → FollowsMessage s.password_success l
    → FollowsMessage (menu_step s e).password_success (appeared l e)
unfolding menu_step
menu_step-Follows s trigger_clicked l f = set_open-Follows (not s.is_open) s l f
menu_step-Follows s pointer_outside l f = kept s.is_open _ s l f f
menu_step-Follows s escape_pressed l f = kept s.is_open _ s l f f
menu_step-Follows s charges_clicked l f = kept s.is_open _ s l f f
menu_step-Follows s top_ups_clicked l f = kept s.is_open _ s l f f
menu_step-Follows s password_clicked l f = kept s.is_open _ s l f f
menu_step-Follows s logout_clicked l f = kept s.is_open _ s l f f
menu_step-Follows s charges_closed l f = f
menu_step-Follows s top_ups_closed l f = f
menu_step-Follows s password_closed l f = f
menu_step-Follows s password_changed l f = show_success-Follows s.password_success l f
menu_step-Follows s millisecond l f = elapse-Follows success_duration "" s.password_success l f

menu_run-Follows :
    (s : UserMenu) (l : Latest String) (es : List MenuEvent)
    → FollowsMessage s.password_success l
    → FollowsMessage (menu_run s es).password_success (appearance l es)
unfolding menu_run appearance
menu_run-Follows s l [] f = f
menu_run-Follows s l (e ∷ es) f =
    menu_run-Follows (menu_step s e) (appeared l e) es (menu_step-Follows s e l f)

-- The message about a changed password stands there for the 5000 milliseconds from the moment it appeared,
-- and for no longer, also if the password is changed once more meanwhile.
pub menu_run-recent :
    (es : List MenuEvent)
    → (menu_run initial es).password_success.value ≡ recent success_duration "" (appearance none es)
menu_run-recent es =
    Follows-recent success_duration "" (menu_run initial es).password_success (appearance none es)
      (menu_run-Follows initial none es (idle-Follows success_duration ""))
