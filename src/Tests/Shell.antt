-- ===== src/Tests/Shell.antt =====
-- The window over the page, and what stands around the pages.
use vpnshiki.Entities.Users.{UserRole, AccountStatus, User}
use vpnshiki.Routes.{admin_users, users, element, page}
use vpnshiki.Shell.Menu
use vpnshiki.Api.{err, unexpected}
use vpnshiki.Prelude.{
  ℕ, none, some, [], ◌∷◌, zero, suc, true, false, refl, Bool, List, Option, ◌+◌, ◌≡◌, ◌-◌, arith,
  get_elem?,
}
use vpnshiki.Ui.Modal.{Document, keys_down, ModalKey, open_modal, close_modal}
use vpnshiki.Ui.Confirmation.{
  IsExclusive, delete_user_run, confirm_clicked, request_ended, delete_tariff_plan_run,
  delete_runs-IsExclusive,
}
use vpnshiki.Ui.Modal.Laws.{IsInOrder, IsInside, keys_down-open_modal, HasNoRepeats}
use vpnshiki.Shell.Menu.{menu_run, password_changed, success_duration}
use vpnshiki.Timers.Recent.{recent}
use vpnshiki.Shell.Menu.Message.{appearance, menu_run-recent}
use vpnshiki.Session.{authenticated}

delete_runs-IsExclusive_example :
    IsExclusive
      (delete_user_run (confirm_clicked ∷ confirm_clicked ∷ request_ended (err unexpected) ∷ []))
    × IsExclusive (
        delete_tariff_plan_run
          (confirm_clicked ∷ confirm_clicked ∷ request_ended (err unexpected) ∷ []))
delete_runs-IsExclusive_example =
    delete_runs-IsExclusive
      (confirm_clicked ∷ confirm_clicked ∷ request_ended (err unexpected) ∷ [])

-- A window with three elements, of which the first closes it.
abbrev elements : List ℕ
elements = 10 ∷ 11 ∷ 12 ∷ []

abbrev browser_move : Bool → ℕ → Option ℕ
browser_move false a = some (a + 1)
browser_move true a = some (a - 1)

elements-IsInOrder : IsInOrder elements browser_move
elements-IsInOrder = record { forward = forward; backward = backward }
  where
    forward :
        (i a b : ℕ)
        → get_elem? elements i ≡ some a
        → get_elem? elements (suc i) ≡ some b
        → browser_move false a ≡ some b
    forward zero a b h k = ground (arith, h, k)
    forward (suc zero) a b h k = ground (arith, h, k)
    forward (suc (suc i)) a b h k = cc

    backward :
        (i a b : ℕ)
        → get_elem? elements i ≡ some a
        → get_elem? elements (suc i) ≡ some b
        → browser_move true b ≡ some a
    backward zero a b h k = ground (arith, h, k)
    backward (suc zero) a b h k = ground (arith, h, k)
    backward (suc (suc i)) a b h k = cc

-- The element at a place is the place and 10.
place : (i a : ℕ) → get_elem? elements i ≡ some a → a ≡ i + 10
place zero a h = ground (arith, h)
place (suc zero) a h = ground (arith, h)
place (suc (suc zero)) a h = ground (arith, h)
place (suc (suc (suc i))) a h = cc

elements-HasNoRepeats : HasNoRepeats elements
elements-HasNoRepeats i j a h k = omega (arith, place i a h, place j a k)

abbrev page_document : Document
page_document = record { focus = some 5; overflow = "auto" }

abbrev keys : List ModalKey
keys = ModalKey.tab true ∷ ModalKey.tab false ∷ ModalKey.tab false ∷ []

wrapped : (keys_down elements browser_move (open_modal 10 page_document).1 keys).focus ≡ some 11
unfolding keys_down open_modal
wrapped = refl

keys_down-open_modal_example :
    let now = keys_down elements browser_move (open_modal 10 page_document).1 keys in
    (IsInside elements browser_move now)
    × (now.overflow ≡ "hidden")
    × (close_modal (open_modal 10 page_document).0 now ≡ page_document)
keys_down-open_modal_example =
    keys_down-open_modal elements browser_move page_document 10 0 5 keys elements-IsInOrder
      elements-HasNoRepeats (omega arith) refl refl

menu_run-recent_example :
    (menu_run Menu.initial
      (password_changed ∷ Menu.millisecond ∷ password_changed ∷ [])).password_success.value
    ≡ recent success_duration ""
        (appearance none (password_changed ∷ Menu.millisecond ∷ password_changed ∷ []))
menu_run-recent_example =
    menu_run-recent (password_changed ∷ Menu.millisecond ∷ password_changed ∷ [])

abbrev anna : User
anna = record {
  id = "u1";
  name = "Анна";
  balance = "0.00";
  negative_balance_limit = "300.00";
  role = UserRole.admin;
  account_status = AccountStatus.active;
  block_source = none;
  created_at = "2026-01-01";
  updated_at = "2026-01-01";
}

users_shown : element authenticated (some anna) admin_users ≡ page users
unfolding element
users_shown = refl
