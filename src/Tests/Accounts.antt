-- ===== src/Tests/Accounts.antt =====
-- Passwords and the page of accounts.
use Prim.Native.Nat.{max, compare, Ordering}
use vpnshiki.Prelude.Int.{◌+ℤ◌, leb_ℤ, pos}
use vpnshiki.Users.VpnProfiles.{
  above, below, Box, tooltip_position, viewport_margin, tooltip_gap, tooltip_position_lem,
}
use vpnshiki.Password.{digits, generate_password, lowercase, uppercase, symbols, all_characters}
use vpnshiki.Prelude.{
  ◌<◌, ◌^◌, ℕ, none, [], ◌∷◌, true, refl, List, ◌*◌, length, ◌+◌, ◌≡◌, ◌↔◌, ◌≤◌, ◌⊎◌, String, arith,
  All, some,
}
use vpnshiki.Users.Safety.{SparesOwn, users_run-SparesOwn}
use vpnshiki.Users.SignOut.{own_reset-login_page}
use vpnshiki.Routes.{settle, admin_users, page, login_page}
use vpnshiki.Entities.Users.{User, AccountStatus, AdminUser, UserRole}
use vpnshiki.Users.Page
use vpnshiki.Users.Page.{
  UsersPage, users_run, UsersEvent, delete_clicked, edit_clicked, delete_confirmed, delete_closed,
  ended, gave_nothing, delete_user, edit_submitted, edit_closed, gave_user, password_submitted,
  refused,
}
use vpnshiki.Users.Form.{validate_tg_user_id, accepted, all_digits, payload, defaults}
use vpnshiki.Text.{codes, trim}
use vpnshiki.Session.{signed_in, signed_out}
use vpnshiki.Password.Laws.{count, contains, generate_password-is_strong}
use vpnshiki.Api.{unexpected}
use vpnshiki.Users.TelegramId.{value, validate_tg_user_id-accepted_iff}
use vpnshiki.Account.{PasswordForm, empty_form}
use vpnshiki.Prelude.Sorting.{flip}

-- Four groups, then characters of the whole set.
abbrev draws : ℕ → ℕ
draws k = k * 7919 + 13

generate_password-is_strong_example :
    let password = generate_password draws 10 in
    (length password ≡ max 10 4)
    × (1 ≤ count (contains lowercase) password)
    × (1 ≤ count (contains uppercase) password)
    × (1 ≤ count (contains digits) password)
    × (1 ≤ count (contains symbols) password)
    × (count (contains all_characters) password ≡ length password)
generate_password-is_strong_example = generate_password-is_strong draws 10

zeros_accepted : validate_tg_user_id (codes " 0042 ") ≡ accepted
unfolding validate_tg_user_id
zeros_accepted = refl

validate_tg_user_id-accepted_iff_example : (validate_tg_user_id (codes " 0042 ") ≡ accepted) ↔ (
    (trim (codes " 0042 ") ≡ [])
    ⊎ ((all_digits (trim (codes " 0042 ")) ≡ true)
        × (1 ≤ value (trim (codes " 0042 ")))
        × (value (trim (codes " 0042 ")) < 10 ^ 20)))
validate_tg_user_id-accepted_iff_example = validate_tg_user_id-accepted_iff (codes " 0042 ")

abbrev owner : User
owner = record {
  id = "u1";
  name = "owner";
  balance = "0.00";
  negative_balance_limit = "300.00";
  role = UserRole.admin;
  account_status = AccountStatus.active;
  block_source = none;
  created_at = "2026-05-31T09:00:00Z";
  updated_at = "2026-05-31T09:00:00Z";
}

abbrev of_user : User → AdminUser
of_user u = record {
  account = u;
  tg_user_id = none;
  total_charged = "0.00";
  total_top_ups = "0.00";
  vpn_profiles = none;
}

abbrev client : User
client = record owner { id = "u2"; role = UserRole.user; account_status = AccountStatus.blocked }

abbrev opened_page : UsersPage
opened_page = Page.initial (signed_in owner) owner.id

abbrev clicks : List UsersEvent
clicks =
    delete_clicked (of_user owner)
    ∷ delete_confirmed
    ∷ delete_clicked (of_user client)
    ∷ delete_confirmed
    ∷ delete_closed
    ∷ ended 0 gave_nothing
    ∷ []

-- The own row does nothing; the other account is deleted.
asks : (users_run opened_page clicks).sent ≡ delete_user client.id ∷ []
unfolding users_run
asks = refl

users_run-SparesOwn_example : All (SparesOwn owner.id) (users_run opened_page clicks).sent
users_run-SparesOwn_example = users_run-SparesOwn (signed_in owner) owner.id clicks

-- The answer to the form of one account, which was closed before, closes that of another.
closed_by_another :
    (users_run opened_page (
      edit_clicked (of_user client)
      ∷ edit_submitted (payload (some (of_user client)) (defaults (some (of_user client))))
      ∷ edit_closed
      ∷ edit_clicked (of_user owner)
      ∷ ended 0 (gave_user client)
      ∷ ended 0 gave_nothing
      ∷ [])).editing
    ≡ none
unfolding users_run
closed_by_another = refl

abbrev resetting_page : UsersPage
resetting_page = record opened_page { resetting = some owner }

own_reset-login_page_example :
    let session =
      (users_run resetting_page (
        password_submitted "new password"
        ∷ ended 0 gave_nothing
        ∷ ended 0 (refused unexpected)
        ∷ [])).session in
    (session ≡ signed_out)
    × (settle 3 session.status session.user admin_users ≡ some (page login_page))
own_reset-login_page_example =
    own_reset-login_page resetting_page "new password" owner gave_nothing (refused unexpected)
      admin_users refl refl tt

abbrev some_form : PasswordForm
some_form = record empty_form { current_password = codes "secret"; confirm_password = codes "typo" }

-- Texts by their number of characters.
by_length : String → String → Ordering
by_length x y = compare (length (codes x)) (length (codes y))

by_length-flip : (x y : String) → by_length y x ≡ flip (by_length x y)
unfolding by_length
by_length-flip x y = ground arith

abbrev trigger : Box
trigger = record { left = 5; top = 100; half_width = 10; height = 20 }

abbrev tooltip : Box
tooltip = record { left = 0; top = 0; half_width = 60; height = 90 }

tooltip_position_lem_example :
    let p = tooltip_position 400 trigger tooltip in
    (p.placement ≡ above
      → (viewport_margin ≤ p.top) × (p.top + tooltip.height + tooltip_gap ≡ trigger.top))
    × (p.placement ≡ below → p.top ≡ trigger.top + trigger.height + tooltip_gap)
    × (leb_ℤ (p.left +ℤ pos (2 * tooltip.half_width + viewport_margin)) (pos 400) ≡ true)
    × (2 * tooltip.half_width + 2 * viewport_margin ≤ 400
        → leb_ℤ (pos viewport_margin) p.left ≡ true)
tooltip_position_lem_example = tooltip_position_lem 400 trigger tooltip
