-- ===== src/Users/Form/Generated.antt =====
-- frontend/src/pages/UsersPage/components/UserForm/UserForm.tsx with frontend/src/shared/lib/password.ts: the password
-- that the button of the form generates.
use vpnshiki.Users.Form.Fields.{apply_generated, check_text, password_error, UserForm}
use vpnshiki.Prelude.{[], arith, ap, ◌∙◌, ◌∷◌, String, ℕ, ◌≤◌, length, ◌≡◌, none}
use vpnshiki.Text.{Text, codes}
use vpnshiki.Password.Laws.{generate_password-is_strong}
use vpnshiki.Password.{generate_password}

pub check_text-long :
    (missing : String) (least : ℕ) (short : String) (s : Text)
    → 1 ≤ length s
    → least ≤ length s
    → check_text missing least short s ≡ none
unfolding check_text
check_text-long missing least short [] h g = ground arith
check_text-long missing least short (c ∷ s) h g = ground arith

-- A generated password of eight characters or more is one that the form accepts for a new account, whatever the
-- random source gives.
pub password_error-apply_generated :
    (draws : ℕ → ℕ) (n : ℕ) (password : String) (f : UserForm)
    → 8 ≤ n
    → codes password ≡ generate_password draws n
    → password_error none (apply_generated password f).values ≡ none
unfolding password_error apply_generated
password_error-apply_generated draws n password f h e =
    let long = ap length e ∙ (generate_password-is_strong draws n).0 in
    check_text-long _ 8 _ (codes password) (omega (arith, long)) (omega (arith, long))
