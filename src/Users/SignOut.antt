-- ===== src/Users/SignOut.antt =====
-- The users page of frontend/src/pages/UsersPage/UsersPage.tsx with the session and the routes: who resets the own
-- password has to sign in again.
use vpnshiki.Prelude.{some, [], ◌∷◌, true, refl, ◌≡◌, Bool, String, eq_iff, subst, sym}
use vpnshiki.Session.{signed_out, logout}
use vpnshiki.Entities.Users.{User}
use vpnshiki.Routes.{Address, page, login_page, settle, settle-eq-destination}
use vpnshiki.Users.Page.{
  UsersPage, Answer, gave_user, gave_nothing, refused, password_submitted, ended, users_run,
  save_resetting, save_password, resetting_password, send, reset_user_password, is_own_account,
  answer, end_found, end_task,
}

-- The server did what was asked.
abbrev pub IsAccepted : Answer → Type 0
IsAccepted (refused e) = ⊥
IsAccepted _ = Unit

abbrev after : UsersPage → String → User → Bool → UsersPage
after p password u own = send (reset_user_password u.id password) (resetting_password u.id own) p

after-signed_out :
    (p : UsersPage) (password : String) (u : User) (a l : Answer)
    → IsAccepted a
    → (users_run (after p password u true) (ended 0 a ∷ ended 0 l ∷ [])).session ≡ signed_out
unfolding users_run end_task end_found answer logout
after-signed_out p password u (refused e) l h = elim h [ ]
after-signed_out p password u (gave_user v) (gave_user w) h = refl
after-signed_out p password u (gave_user v) gave_nothing h = refl
after-signed_out p password u (gave_user v) (refused e) h = refl
after-signed_out p password u gave_nothing (gave_user w) h = refl
after-signed_out p password u gave_nothing gave_nothing h = refl
after-signed_out p password u gave_nothing (refused e) h = refl

resetting-signed_out :
    (p : UsersPage) (password : String) (u : User) (a l : Answer)
    → p.resetting ≡ some u
    → u.id ≡ p.own_id
    → IsAccepted a
    → (users_run p (password_submitted password ∷ ended 0 a ∷ ended 0 l ∷ [])).session ≡ signed_out
unfolding users_run save_password
resetting-signed_out p password u a l shown own h =
    let same : is_own_account p u.id ≡ true = (eq_iff u.id p.own_id).1 own in
    subst
      (λ r.
        (users_run (save_resetting r p password) (ended 0 a ∷ ended 0 l ∷ [])).session ≡ signed_out)
      (sym shown)
      (subst
        (λ b. (users_run (after p password u b) (ended 0 a ∷ ended 0 l ∷ [])).session ≡ signed_out)
        (sym same) (after-signed_out p password u a l h))

-- Once the server has reset the own password, and the request that signs out is over, with success or not, the session
-- has ended, and every address leads to the login page.
pub own_reset-login_page :
    (p : UsersPage) (password : String) (u : User) (a l : Answer) (address : Address)
    → p.resetting ≡ some u
    → u.id ≡ p.own_id
    → IsAccepted a
    → let session =
        (users_run p (password_submitted password ∷ ended 0 a ∷ ended 0 l ∷ [])).session in
      (session ≡ signed_out)
      × (settle 3 session.status session.user address ≡ some (page login_page))
own_reset-login_page p password u a l address shown own h =
    let over = resetting-signed_out p password u a l shown own h in
    (
      over,
      subst (λ s. settle 3 s.status s.user address ≡ some (page login_page)) (sym over)
          (settle-eq-destination 0 signed_out.status signed_out.user address),
    )
