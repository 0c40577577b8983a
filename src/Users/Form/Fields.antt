-- ===== src/Users/Form/Fields.antt =====
-- frontend/src/pages/UsersPage/components/UserForm/UserForm.tsx: the rules of the form's fields, the options of its two
-- lists, the hint under the status and the password that the generator puts in. That `required` refuses the empty
-- text, `minLength` a shorter one and `min` a smaller number, in this order, is what the form library documents.
use vpnshiki.Entities.Users.{AccountStatus, UserRole, AdminUser}
use vpnshiki.Users.Form.{FormValues, TgUserIdCheck, validate_tg_user_id}
use vpnshiki.Prelude.{
  List, Option, String, Bool, if◌then◌else◌, none, true, ℕ, false, some, str_eq, ◌∷◌, [], ltb,
  length, ◌&&◌, ◌==◌, not,
}
use vpnshiki.Money.{Decimal}
use vpnshiki.Ui.FieldSelect.{FieldSelectOption}
use vpnshiki.Text.{codes, Text}

-- `statusDescriptions`
unfoldable pub status_description : AccountStatus → String
status_description AccountStatus.active = "Участвует в общем расчёте"
status_description AccountStatus.paused = "Участие и ежедневные списания приостановлены"
status_description AccountStatus.blocked = "Не участвует и не может самостоятельно изменить статус"

abbrev option : String → String → FieldSelectOption
option value label = record { value = value; label = codes label; disabled = false }

-- `roleOptions`
unfoldable pub role_options : List FieldSelectOption
role_options = option "user" "Участник" ∷ option "admin" "Администратор" ∷ []

-- `statusOptions`
unfoldable pub account_status_options : List FieldSelectOption
account_status_options =
    option "active" "Активен"
    ∷ option "paused" "Приостановлен"
    ∷ option "blocked" "Заблокирован"
    ∷ []

-- The values of the two lists.
abbrev pub role_value : UserRole → String
role_value UserRole.user = "user"
role_value UserRole.admin = "admin"

abbrev pub status_value : AccountStatus → String
status_value AccountStatus.active = "active"
status_value AccountStatus.paused = "paused"
status_value AccountStatus.blocked = "blocked"

-- `required` and then `minLength`.
unfoldable pub check_text : (missing : String) (least : ℕ) (short : String) → Text → Option String
check_text missing least short [] = some missing
check_text missing least short (c ∷ s) = if ltb (length (c ∷ s)) least then some short else none

unfoldable pub name_error : FormValues → Option String
unfolding check_text
name_error v = check_text "Введите имя" 2 "Минимум 2 символа" (codes v.name)

-- The field of the password is there only for a new account.
unfoldable pub password_error : Option AdminUser → FormValues → Option String
unfolding check_text
password_error none v = check_text "Введите пароль" 8 "Минимум 8 символов" (codes v.password)
password_error (some u) v = none

unfoldable pub balance_error : FormValues → Option String
unfolding check_text
balance_error v = check_text "Введите баланс" 0 "" (codes v.balance)

abbrev is_below_zero : Option Decimal → Bool
is_below_zero none = false
is_below_zero (some d) = d.negative && not (d.digits == 0)

-- `min: { value: 0, ... }`, on the number that the browser reads from the field.
unfoldable pub limit_error : (read : String → Option Decimal) → FormValues → Option String
limit_error read v =
    if str_eq v.negative_balance_limit ""
    then some "Введите лимит"
    else if is_below_zero (read v.negative_balance_limit)
    then some "Лимит не может быть отрицательным"
    else none

abbrev id_message : TgUserIdCheck → Option String
id_message TgUserIdCheck.accepted = none
id_message TgUserIdCheck.only_digits = some "ID должен содержать только цифры"
id_message TgUserIdCheck.not_positive = some "ID должен быть положительным"
id_message TgUserIdCheck.too_long = some "Максимум 20 цифр"

unfoldable pub tg_user_id_error : FormValues → Option String
unfolding validate_tg_user_id
tg_user_id_error v = id_message (validate_tg_user_id v.tg_user_id)

-- The form's values with the visibility of the password.
pub record UserForm : Type 0 where
  pub values : FormValues
  pub password_visible : Bool

unfoldable pub apply_generated : String → UserForm → UserForm
apply_generated password f = record f {
  values = record f.values { password = password };
  password_visible = true;
}

abbrev is_none : Option String → Bool
is_none none = true
is_none (some message) = false

-- Whether each rule holds, so that the form is sent.
unfoldable pub is_valid : (read : String → Option Decimal) → Option AdminUser → FormValues → Bool
unfolding name_error password_error balance_error limit_error tg_user_id_error
is_valid read user v =
    is_none (name_error v)
    && is_none (tg_user_id_error v)
    && is_none (password_error user v)
    && is_none (balance_error v)
    && is_none (limit_error read v)
