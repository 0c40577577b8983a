-- ===== src/Users/Safety.antt =====
-- frontend/src/pages/UsersPage/UsersPage.tsx: what the users page never asks of the server.
use vpnshiki.Prelude.{
  ℕ, none, some, [], ◌∷◌, true, false, inl, inr, refl, List, ◌≡◌, ◌+◌, length, arith, subst,
  Bool-cases, Option, String, str_eq, All, erase_idx, get_elem?,
}
use vpnshiki.Session.{UserState, logout, set_user}
use vpnshiki.Entities.Users.{User, AdminUser, AccountStatus}
use vpnshiki.Users.Form.{UserPayload}
use vpnshiki.Users.Page.{
  UsersPage, UsersEvent, UsersRequest, Task, Answer, initial, is_own_account, click_delete, updated,
  confirm_deleting, confirm_delete, save_create, save_editing, save_edit, save_resetting,
  save_password, answer, end_found, end_task, users_step, users_run, status_count, closing,
  creating, updating, resetting_password, deleting_user, logging_out, create_window, edit_window,
  delete_window, refused, gave_user, gave_nothing, search_typed, create_clicked, create_closed,
  edit_closed, reset_closed, delete_closed, history_closed, edit_clicked, reset_clicked,
  delete_clicked, charges_clicked, top_ups_clicked, statuses_clicked, create_submitted,
  edit_submitted, password_submitted, delete_confirmed, ended,
}

-- An account to delete, if there is one, is not the current one.
abbrev pub IsOther : String → Option User → Type 0
IsOther own none = Unit
IsOther own (some u) = str_eq u.id own ≡ false

abbrev pub SparesOwn : String → UsersRequest → Type 0
SparesOwn own (UsersRequest.delete_user id) = str_eq id own ≡ false
SparesOwn own _ = Unit

-- The page is that of the account, asks to delete another one, and has asked the server to.
abbrev pub IsGuarded : String → UsersPage → Type 0
IsGuarded own p = (p.own_id ≡ own) × IsOther own p.deleting × All (SparesOwn own) p.sent

module _ (own : String) where
  click_delete-IsGuarded :
      (p : UsersPage) (a : AdminUser) → IsGuarded own p → IsGuarded own (click_delete p a)
  click_delete-IsGuarded p a h = elim (Bool-cases (is_own_account p a.id)) [
    | inl same ↦ simp same h
    | inr other ↦ simp other (h.0, subst (λ o. str_eq a.id o ≡ false) h.0 other, h.2)
  ]

  updated-IsGuarded :
      (p : UsersPage) (user : User) → IsGuarded own p → IsGuarded own (updated p user)
  unfolding set_user
  updated-IsGuarded p user h = elim (Bool-cases (is_own_account p user.id)) [
    | inl same ↦ simp same h
    | inr other ↦ simp other h
  ]

  confirm_deleting-IsGuarded :
      (p : UsersPage) (d : Option User)
      → IsOther own d
      → IsGuarded own p
      → IsGuarded own (confirm_deleting d p)
  confirm_deleting-IsGuarded p none o h = h
  confirm_deleting-IsGuarded p (some u) o h = (h.0, h.1, (o, h.2))

  save_editing-IsGuarded :
      (p : UsersPage) (e : Option AdminUser) (payload : UserPayload)
      → IsGuarded own p
      → IsGuarded own (save_editing e p payload)
  save_editing-IsGuarded p none payload h = h
  save_editing-IsGuarded p (some u) payload h = (h.0, h.1, (tt, h.2))

  save_resetting-IsGuarded :
      (p : UsersPage) (r : Option User) (password : String)
      → IsGuarded own p
      → IsGuarded own (save_resetting r p password)
  save_resetting-IsGuarded p none password h = h
  save_resetting-IsGuarded p (some u) password h = (h.0, h.1, (tt, h.2))

  answer-IsGuarded :
      (p : UsersPage) (t : Task) (a : Answer) → IsGuarded own p → IsGuarded own (answer p t a).0
  unfolding answer logout
  answer-IsGuarded p (closing create_window) a h = h
  answer-IsGuarded p (closing edit_window) a h = h
  answer-IsGuarded p (closing delete_window) a h = (h.0, tt, h.2)
  answer-IsGuarded p logging_out (refused e) h = h
  answer-IsGuarded p logging_out (gave_user u) h = h
  answer-IsGuarded p logging_out gave_nothing h = h
  answer-IsGuarded p creating (refused e) h = h
  answer-IsGuarded p creating (gave_user u) h = h
  answer-IsGuarded p creating gave_nothing h = h
  answer-IsGuarded p (updating id) (refused e) h = h
  answer-IsGuarded p (updating id) (gave_user u) h = updated-IsGuarded p u h
  answer-IsGuarded p (updating id) gave_nothing h = h
  answer-IsGuarded p (resetting_password id b) (refused e) h = h
  answer-IsGuarded p (resetting_password id true) (gave_user u) h = h
  answer-IsGuarded p (resetting_password id false) (gave_user u) h = h
  answer-IsGuarded p (resetting_password id true) gave_nothing h = h
  answer-IsGuarded p (resetting_password id false) gave_nothing h = h
  answer-IsGuarded p (deleting_user id) (refused e) h = h
  answer-IsGuarded p (deleting_user id) (gave_user u) h = h
  answer-IsGuarded p (deleting_user id) gave_nothing h = h

  end_found-IsGuarded :
      (p : UsersPage) (i : ℕ) (t : Option Task) (a : Answer)
      → IsGuarded own p
      → IsGuarded own (end_found p i t a).0
  unfolding end_found
  end_found-IsGuarded p i none a h = h
  end_found-IsGuarded p i (some t) a h =
      answer-IsGuarded (record p { tasks = erase_idx p.tasks i }) t a h

  users_step-IsGuarded :
      (p : UsersPage) (e : UsersEvent) → IsGuarded own p → IsGuarded own (users_step p e)
  unfolding users_step save_create save_edit save_password confirm_delete end_task
  users_step-IsGuarded p (search_typed s) h = h
  users_step-IsGuarded p create_clicked h = h
  users_step-IsGuarded p create_closed h = h
  users_step-IsGuarded p edit_closed h = h
  users_step-IsGuarded p reset_closed h = h
  users_step-IsGuarded p delete_closed h = (h.0, tt, h.2)
  users_step-IsGuarded p history_closed h = h
  users_step-IsGuarded p (edit_clicked a) h = h
  users_step-IsGuarded p (reset_clicked a) h = h
  users_step-IsGuarded p (delete_clicked a) h = click_delete-IsGuarded p a h
  users_step-IsGuarded p (charges_clicked a) h = h
  users_step-IsGuarded p (top_ups_clicked a) h = h
  users_step-IsGuarded p (statuses_clicked a) h = h
  users_step-IsGuarded p (create_submitted payload) h = (h.0, h.1, (tt, h.2))
  users_step-IsGuarded p (edit_submitted payload) h = save_editing-IsGuarded p p.editing payload h
  users_step-IsGuarded p (password_submitted password) h =
      save_resetting-IsGuarded p p.resetting password h
  users_step-IsGuarded p delete_confirmed h = confirm_deleting-IsGuarded p p.deleting h.1 h
  users_step-IsGuarded p (ended i a) h = end_found-IsGuarded p i (get_elem? p.tasks i) a h

  users_run-IsGuarded :
      (p : UsersPage) (es : List UsersEvent) → IsGuarded own p → IsGuarded own (users_run p es)
  unfolding users_run
  users_run-IsGuarded p [] h = h
  users_run-IsGuarded p (e ∷ es) h =
      users_run-IsGuarded (users_step p e) es (users_step-IsGuarded p e h)

-- Whatever is clicked and submitted, and however the requests end and interleave, the page never asks the server to
-- delete the own account.
pub users_run-SparesOwn :
    (session : UserState) (own : String) (es : List UsersEvent)
    → All (SparesOwn own) (users_run (initial session own) es).sent
users_run-SparesOwn session own es =
    (users_run-IsGuarded own (initial session own) es (refl, tt, tt)).2

-- The three counts at the top of the page add up to the number of all accounts.
pub status_count-add :
    (users : List AdminUser)
    → status_count AccountStatus.active users
        + status_count AccountStatus.paused users
        + status_count AccountStatus.blocked users
      ≡ length users
unfolding status_count
status_count-add [] = omega arith
status_count-add (u ∷ us) = ground (arith, status_count-add us)
