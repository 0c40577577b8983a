-- ===== src/Account.antt =====
-- The forms about a password: frontend/src/entities/user/ui/ChangePasswordModal, the form of
-- frontend/src/pages/UsersPage/components/ResetPasswordForm, and frontend/src/pages/LoginPage. A check
-- gives `none` for a value that is accepted.
pub mod Login
pub mod Reset
use vpnshiki.Prelude.Dict
use Prim.Native.Nat.{max}
use vpnshiki.Api.{unexpected, api, ok, err, Fault, Result}
use vpnshiki.Session.{login, set_user, UserState}
use vpnshiki.Prelude.{
  ℕ, none, some, [], ◌∷◌, true, false, refl, Bool, Option, ◌≤◌, List, String, length, ◌≡◌,
  if◌then◌else◌, arith, ltb, str_eq,
}
use vpnshiki.Text.{Text, text_eq, is_empty, text_eq_iff}
use vpnshiki.Entities.Users.{User}
use vpnshiki.Password.{generate_password}
use vpnshiki.Password.Laws.{generate_password-is_strong}

pub record PasswordForm : Type 0 where
  pub current_password : Text
  pub new_password : Text
  pub confirm_password : Text
  pub new_password_visible : Bool
  pub confirm_password_visible : Bool

abbrev pub empty_form : PasswordForm
empty_form = record {
  current_password = [];
  new_password = [];
  confirm_password = [];
  new_password_visible = false;
  confirm_password_visible = false;
}

unfoldable pub apply_generated_password : PasswordForm → Text → PasswordForm
apply_generated_password form password = record form {
  new_password = password;
  confirm_password = password;
  new_password_visible = true;
  confirm_password_visible = true;
}

unfoldable pub check_current_password : PasswordForm → Option String
check_current_password form =
    if is_empty form.current_password then some "Введите текущий пароль" else none

unfoldable pub check_new_password : PasswordForm → Option String
check_new_password form =
    if is_empty form.new_password
    then some "Введите новый пароль"
    else if ltb (length form.new_password) 8
    then some "Минимум 8 символов"
    else none

unfoldable pub check_confirm_password : PasswordForm → Option String
unfolding text_eq
check_confirm_password form =
    if text_eq form.confirm_password form.new_password then none else some "Пароли не совпадают"

-- The form after a submission that is over, the session, whether the window is closed, and the messages
-- that the form shows. `current_password` is the server's name of the field.
pub record PasswordWindow : Type 0 where
  pub form : PasswordForm
  pub session : UserState
  pub is_open : Bool
  pub errors : List (String × String)

abbrev current_password_error : Option (List (String × String)) → Option String
current_password_error none = none
current_password_error (some entries) = Dict.get "current_password" entries

-- An empty message counts as none.
abbrev named_error : Option String → String → List (String × String)
named_error none message = ("root", message) ∷ []
named_error (some text) message =
    if str_eq text "" then ("root", message) ∷ [] else ("currentPassword", text) ∷ []

unfoldable pub change_password_errors : Fault → List (String × String)
unfolding Dict.get
change_password_errors unexpected = ("root", "Не удалось изменить пароль") ∷ []
change_password_errors (api e) = named_error (current_password_error e.field_errors) e.message

unfoldable pub submit_password : PasswordWindow → Result User → PasswordWindow
unfolding set_user change_password_errors
submit_password w (ok user) = record {
  form = empty_form;
  session = set_user w.session user;
  is_open = false;
  errors = [];
}
submit_password w (err e) = record w { errors = change_password_errors e }

unfoldable pub cancel_password : PasswordWindow → PasswordWindow
cancel_password w = record w { form = empty_form; is_open = false; errors = [] }

abbrev message_of : Fault → String → String
message_of unexpected default = default
message_of (api e) default = e.message

-- The message of the form when the password of an account cannot be reset.
unfoldable pub reset_password_errors : Result (Unit {0}) → List (String × String)
reset_password_errors (ok _) = []
reset_password_errors (err e) = ("root", message_of e "Не удалось сменить пароль") ∷ []

-- The login form: the session and the message above the button.
unfoldable pub submit_login : UserState → Result User → UserState × String
unfolding login
submit_login s (ok user) = ((login s (ok user)).0, "")
submit_login s (err e) = ((login s (err e)).0, message_of e "Не удалось войти")

text_eq_self : (s : Text) → text_eq s s ≡ true
text_eq_self s = (text_eq_iff s s).1 refl

empty_of_length : (s : Text) → 1 ≤ length s → is_empty s ≡ false
empty_of_length [] h = absurd (omega arith)
empty_of_length (c ∷ s) h = refl

-- A generated password of the usual length, or of any from 8 characters on, passes both checks of the
-- new password, whatever stood in the fields and whatever the random source gives.
pub apply_generated_password-accepted :
    (draws : ℕ → ℕ) (n : ℕ) (form : PasswordForm)
    → 8 ≤ n
    → let filled = apply_generated_password form (generate_password draws n) in
      (check_new_password filled ≡ none) × (check_confirm_password filled ≡ none)
unfolding apply_generated_password check_new_password check_confirm_password
apply_generated_password-accepted draws n form h =
    let password = generate_password draws n in
    let size : length password ≡ max n 4 = (generate_password-is_strong draws n).0 in
    let filled : is_empty password ≡ false = empty_of_length password (omega (arith, size, h)) in
    let long : ltb (length password) 8 ≡ false = ground (arith, size, h) in
    (rw filled (rw long refl), rw (text_eq_self password) refl)
