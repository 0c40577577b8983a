-- ===== src/Account/Login.antt =====
-- frontend/src/pages/LoginPage/LoginPage.tsx: what the page shows and the rules of its two fields.
use vpnshiki.Session.{AuthStatus}
use vpnshiki.Prelude.{Option, String, if◌then◌else◌, some, none}
use vpnshiki.Text.{Text, is_empty}
use vpnshiki.Users.Form.Fields.{check_text}

pub record LoginForm : Type 0 where
  pub name : Text
  pub password : Text

unfoldable pub check_login_name : LoginForm → Option String
unfolding check_text
check_login_name form = check_text "Введите имя" 2 "Минимум 2 символа" form.name

unfoldable pub check_login_password : LoginForm → Option String
check_login_password form = if is_empty form.password then some "Введите пароль" else none

pub data LoginView : Type 0 where
  to_root : LoginView
  login_form : (error : String) → LoginView

-- Who is signed in already is sent to the root.
unfoldable pub login_page : AuthStatus → (error : String) → LoginView
login_page AuthStatus.authenticated error = to_root
login_page AuthStatus.unauthenticated error = login_form error
login_page AuthStatus.checking error = login_form error
