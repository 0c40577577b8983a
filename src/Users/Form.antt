-- ===== src/Users/Form.antt =====
-- frontend/src/pages/UsersPage/components/UserForm/UserForm.tsx: what the form starts from, what it
-- accepts, what it sends and what it shows when the server refuses.
pub mod Fields
pub mod Generated
use vpnshiki.Api.{Fault, unexpected, api}
use vpnshiki.Prelude.{
  none, some, [], ◌∷◌, true, Option, String, Bool, List, if◌then◌else◌, ltb, str_eq, ◌==◌, length,
  map, ◌&&◌,
}
use vpnshiki.Text.{Text, text_eq, trim, codes, is_digit}
use vpnshiki.Entities.Users.{AdminUser, UserRole, AccountStatus}

pub record FormValues : Type 0 where
  pub name : String
  pub password : String
  pub balance : String
  pub negative_balance_limit : String
  pub role : UserRole
  pub account_status : AccountStatus
  pub tg_user_id : Text

abbrev or_blank : Option String → Text
or_blank none = []
or_blank (some id) = codes id

unfoldable pub defaults : Option AdminUser → FormValues
defaults none = record {
  name = "";
  password = "";
  balance = "0.00";
  negative_balance_limit = "300.00";
  role = UserRole.user;
  account_status = AccountStatus.active;
  tg_user_id = [];
}
defaults (some u) = record {
  name = u.name;
  password = "";
  balance = u.balance;
  negative_balance_limit = u.negative_balance_limit;
  role = u.role;
  account_status = u.account_status;
  tg_user_id = or_blank u.tg_user_id;
}

-- `/^\d+$/`, on a text that is not empty.
unfoldable pub all_digits : Text → Bool
all_digits [] = true
all_digits (c ∷ s) = is_digit c && all_digits s

-- `replace(/^0+/, '')`
unfoldable pub drop_zeros : Text → Text
drop_zeros [] = []
drop_zeros (c ∷ s) = let rest = drop_zeros s in if c == b'0' then rest else c ∷ s

abbrev pub or_zero : Text → Text
or_zero [] = codes "0"
or_zero (c ∷ s) = c ∷ s

pub data TgUserIdCheck : Type 0 where
  accepted only_digits not_positive too_long : TgUserIdCheck

unfoldable pub check_normalized : Text → TgUserIdCheck
unfolding text_eq
check_normalized normalized =
    if text_eq normalized (codes "0")
    then not_positive
    else if ltb 20 (length normalized)
    then too_long
    else accepted

unfoldable pub check_trimmed : Text → TgUserIdCheck
unfolding all_digits drop_zeros check_normalized
check_trimmed [] = accepted
check_trimmed (c ∷ s) =
    if all_digits (c ∷ s) then check_normalized (or_zero (drop_zeros (c ∷ s))) else only_digits

unfoldable pub validate_tg_user_id : Text → TgUserIdCheck
unfolding trim check_trimmed
validate_tg_user_id value = check_trimmed (trim value)

-- The body of the request: without a password for an account that exists.
pub record UserPayload : Type 0 where
  pub name : String
  pub balance : String
  pub negative_balance_limit : String
  pub role : UserRole
  pub account_status : AccountStatus
  pub tg_user_id : Option Text
  pub password : Option String

-- `value || null`
abbrev pub or_null : Text → Option Text
or_null [] = none
or_null (c ∷ s) = some (c ∷ s)

abbrev new_password : Option AdminUser → FormValues → Option String
new_password none v = some v.password
new_password (some _) v = none

unfoldable pub payload : Option AdminUser → FormValues → UserPayload
unfolding trim
payload user v = record {
  name = v.name;
  balance = v.balance;
  negative_balance_limit = v.negative_balance_limit;
  role = v.role;
  account_status = v.account_status;
  tg_user_id = or_null (trim v.tg_user_id);
  password = new_password user v;
}

-- A name of the server for a field, as the form calls it.
abbrev form_field : String → String
form_field field = if str_eq field "negative_balance_limit" then "negativeBalanceLimit" else field

-- The messages set on fields after the request failed; `root` is the form's own.
unfoldable pub submit_errors : Fault → List (String × String)
submit_errors unexpected = ("root", "Не удалось сохранить пользователя") ∷ []
submit_errors (api e) = elim e.field_errors [
  | none ↦ ("root", e.message) ∷ []
  | some entries ↦ map (λ entry. (form_field entry.0, entry.1)) entries
]
