-- ===== src/Account/Reset.antt =====
-- frontend/src/pages/UsersPage/components/ResetPasswordForm/ResetPasswordForm.tsx: the form in which an administrator sets
-- the password of an account.
use vpnshiki.Prelude.{
  Option, ℕ, Bool, String, some, true, ◌≤◌, if◌then◌else◌, none, ◌≡◌, arith, refl,
}
use vpnshiki.Text.{Text, text_eq, text_eq_iff}
use vpnshiki.Users.Form.Fields.{check_text}
use vpnshiki.Password.{generate_password}
use vpnshiki.Password.Laws.{generate_password-is_strong}
use vpnshiki.Users.Form.Generated.{check_text-long}

pub record ResetForm : Type 0 where
  pub password : Text
  pub confirmation : Text
  pub password_visible : Bool
  pub confirmation_visible : Bool

unfoldable pub fill_generated : ResetForm → Text → ResetForm
fill_generated form generated_password = record form {
  password = generated_password;
  confirmation = generated_password;
  password_visible = true;
  confirmation_visible = true;
}

unfoldable pub check_reset_password : ResetForm → Option String
unfolding check_text
check_reset_password form = check_text "Введите пароль" 8 "Минимум 8 символов" form.password

unfoldable pub check_confirmation : ResetForm → Option String
unfolding text_eq
check_confirmation form =
    if text_eq form.confirmation form.password then none else some "Пароли не совпадают"

abbrev sent : Option String → Option String → Text → Option Text
sent none none password = some password
sent _ _ password = none

-- What is sent: the password, if both fields are accepted.
unfoldable pub sent_password : ResetForm → Option Text
unfolding check_reset_password check_confirmation
sent_password form = sent (check_reset_password form) (check_confirmation form) form.password

-- A generated password of eight characters or more is accepted and sent as it is, whatever stood in the fields and
-- whatever the random source gives.
pub sent_password-fill_generated :
    (draws : ℕ → ℕ) (n : ℕ) (form : ResetForm)
    → 8 ≤ n
    → sent_password (fill_generated form (generate_password draws n))
      ≡ some (generate_password draws n)
unfolding sent_password fill_generated check_reset_password check_confirmation
sent_password-fill_generated draws n form h =
    let password = generate_password draws n in
    let size = (generate_password-is_strong draws n).0 in
    rw
      (check_text-long "Введите пароль" 8 "Минимум 8 символов" password (omega (arith, size))
        (omega (arith, size)))
      (rw ((text_eq_iff password password).1 refl) refl)
