-- ===== src/Users/Page.antt =====
-- frontend/src/pages/UsersPage/UsersPage.tsx: the page's state, its buttons and its requests. The session is the
-- store of Session. A handler that awaits is cut where it does: it leaves a task, and an event ends the task.
use vpnshiki.Prelude.{
  ℕ, none, some, [], ◌∷◌, true, false, List, Option, String, ◌+◌, Bool, if◌then◌else◌, length,
  filter, str_eq, get_elem?, erase_idx,
}
use vpnshiki.Api.{Fault, unexpected, Result, ok, err}
use vpnshiki.Session.{UserState, set_user, logout}
use vpnshiki.Entities.Users.{AccountStatus, AdminUser, User}
use vpnshiki.Users.Form.{UserPayload}
use vpnshiki.Text.{Text, trim, includes, codes}

pub data UsersWindow : Type 0 where
  create_window edit_window delete_window : UsersWindow

-- What a handler waits for: the answer to a request, or, in `closing`, that the list is fetched anew, after which the
-- window is closed. `own` is `resettingSelf`.
pub data Task : Type 0 where
  creating : Task
  updating : (id : String) → Task
  resetting_password : (id : String) → (own : Bool) → Task
  deleting_user : (id : String) → Task
  closing : UsersWindow → Task
  logging_out : Task

-- What is asked of the server.
pub data UsersRequest : Type 0 where
  create_user : UserPayload → UsersRequest
  update_user : (id : String) → UserPayload → UsersRequest
  reset_user_password : (id : String) → (password : String) → UsersRequest
  delete_user : (id : String) → UsersRequest

-- `own_id` is `currentUser.id`, which no handler changes; `sent` are the requests so far, the last first, and `refreshes`
-- counts how often the list is fetched anew.
pub record UsersPage : Type 0 where
  pub session : UserState
  pub own_id : String
  pub search : Text
  pub create_open : Bool
  pub editing : Option AdminUser
  pub resetting : Option User
  pub history_user : Option AdminUser
  pub top_up_history_user : Option AdminUser
  pub status_history_user : Option AdminUser
  pub deleting : Option User
  pub tasks : List Task
  pub sent : List UsersRequest
  pub refreshes : ℕ

-- The page as it is first shown to a user who is signed in.
abbrev pub initial : UserState → String → UsersPage
initial session own_id = record {
  session = session;
  own_id = own_id;
  search = [];
  create_open = false;
  editing = none;
  resetting = none;
  history_user = none;
  top_up_history_user = none;
  status_history_user = none;
  deleting = none;
  tasks = [];
  sent = [];
  refreshes = 0;
}

abbrev pub is_own_account : UsersPage → String → Bool
is_own_account p id = str_eq id p.own_id

-- `users`: the accounts whose name holds the search text.
unfoldable pub visible_users : (Text → Text) → Text → List AdminUser → List AdminUser
unfolding trim includes
visible_users to_lower search users =
    let query = to_lower (trim search) in
    filter (λ u. includes (to_lower (codes u.name)) query) users

abbrev pub has_status : AccountStatus → AdminUser → Bool
has_status AccountStatus.active u = elim u.account_status [
  | AccountStatus.active ↦ true
  | _ ↦ false
]
has_status AccountStatus.paused u = elim u.account_status [
  | AccountStatus.paused ↦ true
  | _ ↦ false
]
has_status AccountStatus.blocked u = elim u.account_status [
  | AccountStatus.blocked ↦ true
  | _ ↦ false
]

-- `activeCount`, `pausedCount` and `blockedCount`.
unfoldable pub status_count : AccountStatus → List AdminUser → ℕ
status_count status users = length (filter (has_status status) users)

-- `refresh`, with what closes the window when it is over.
abbrev pub refresh : UsersWindow → UsersPage → UsersPage
refresh w p = record p { tasks = closing w ∷ p.tasks; refreshes = p.refreshes + 1 }

abbrev pub send : UsersRequest → Task → UsersPage → UsersPage
send request t p = record p { tasks = t ∷ p.tasks; sent = request ∷ p.sent }

-- The four handlers up to their first `await`.
unfoldable pub save_create : UsersPage → UserPayload → UsersPage
save_create p payload = send (create_user payload) creating p

abbrev pub save_editing : Option AdminUser → UsersPage → UserPayload → UsersPage
save_editing none p payload = p
save_editing (some u) p payload = send (update_user u.id payload) (updating u.id) p

unfoldable pub save_edit : UsersPage → UserPayload → UsersPage
save_edit p payload = save_editing p.editing p payload

abbrev pub save_resetting : Option User → UsersPage → String → UsersPage
save_resetting none p password = p
save_resetting (some u) p password =
    send (reset_user_password u.id password) (resetting_password u.id (is_own_account p u.id)) p

unfoldable pub save_password : UsersPage → String → UsersPage
save_password p password = save_resetting p.resetting p password

abbrev pub confirm_deleting : Option User → UsersPage → UsersPage
confirm_deleting none p = p
confirm_deleting (some u) p = send (delete_user u.id) (deleting_user u.id) p

unfoldable pub confirm_delete : UsersPage → UsersPage
confirm_delete p = confirm_deleting p.deleting p

-- The answer to a request: a body, none, or a rejection.
pub data Answer : Type 0 where
  gave_user : User → Answer
  gave_nothing : Answer
  refused : Fault → Answer

abbrev pub close_window : UsersWindow → UsersPage → UsersPage
close_window create_window p = record p { create_open = false }
close_window edit_window p = record p { editing = none }
close_window delete_window p = record p { deleting = none }

-- `onSuccess` of the update: the own account goes to the session.
abbrev pub updated : UsersPage → User → UsersPage
updated p user =
    refresh edit_window
      (if is_own_account p user.id then record p { session = set_user p.session user } else p)

abbrev pub password_reset : Bool → UsersPage → UsersPage
password_reset true p = record p { resetting = none; tasks = logging_out ∷ p.tasks }
password_reset false p = record p { resetting = none }

abbrev as_result : Answer → Result (Unit {0})
as_result (refused e) = err e
as_result _ = ok tt

abbrev pub logged_out : UsersPage → UserState × Option Fault → UsersPage × Option Fault
logged_out p (s, thrown) = (record p { session = s }, thrown)

-- What a handler does after its `await`, and what it throws into the form that called it. An update without a body
-- throws where its `id` is read; fetching anew never does.
unfoldable pub answer : UsersPage → Task → Answer → UsersPage × Option Fault
unfolding set_user logout
answer p (closing w) a = (close_window w p, none)
answer p logging_out a = logged_out p (logout p.session (as_result a))
answer p creating (refused e) = (p, some e)
answer p (updating id) (refused e) = (p, some e)
answer p (resetting_password id own) (refused e) = (p, some e)
answer p (deleting_user id) (refused e) = (p, some e)
answer p creating a = (refresh create_window p, none)
answer p (updating id) (gave_user user) = (updated p user, none)
answer p (updating id) gave_nothing = (p, some unexpected)
answer p (resetting_password id own) a = (password_reset own p, none)
answer p (deleting_user id) a = (refresh delete_window p, none)

unfoldable pub end_found : UsersPage → ℕ → Option Task → Answer → UsersPage × Option Fault
unfolding answer
end_found p i none a = (p, none)
end_found p i (some t) a = answer (record p { tasks = erase_idx p.tasks i }) t a

-- The end of the task at place `i`.
unfoldable pub end_task : UsersPage → ℕ → Answer → UsersPage × Option Fault
unfolding end_found
end_task p i a = end_found p i (get_elem? p.tasks i) a

-- Buttons of a row, the closing of windows, the submission of the forms, and the ends of tasks.
pub data UsersEvent : Type 0 where
  search_typed : Text → UsersEvent
  create_clicked create_closed edit_closed reset_closed delete_closed history_closed : UsersEvent
  edit_clicked reset_clicked delete_clicked charges_clicked top_ups_clicked statuses_clicked :
      AdminUser → UsersEvent
  create_submitted edit_submitted : UserPayload → UsersEvent
  password_submitted : String → UsersEvent
  delete_confirmed : UsersEvent
  ended : ℕ → Answer → UsersEvent

-- The button that deletes is disabled in the row of the own account.
abbrev pub click_delete : UsersPage → AdminUser → UsersPage
click_delete p u = if is_own_account p u.id then p else record p { deleting = some u.account }

unfoldable pub users_step : UsersPage → UsersEvent → UsersPage
unfolding save_create save_edit save_password confirm_delete end_task
users_step p (search_typed s) = record p { search = s }
users_step p create_clicked = record p { create_open = true }
users_step p create_closed = record p { create_open = false }
users_step p edit_closed = record p { editing = none }
users_step p reset_closed = record p { resetting = none }
users_step p delete_closed = record p { deleting = none }
users_step p history_closed = record p {
  history_user = none;
  top_up_history_user = none;
  status_history_user = none;
}
users_step p (edit_clicked u) = record p { editing = some u }
users_step p (reset_clicked u) = record p { resetting = some u.account }
users_step p (delete_clicked u) = click_delete p u
users_step p (charges_clicked u) = record p { history_user = some u }
users_step p (top_ups_clicked u) = record p { top_up_history_user = some u }
users_step p (statuses_clicked u) = record p { status_history_user = some u }
users_step p (create_submitted payload) = save_create p payload
users_step p (edit_submitted payload) = save_edit p payload
users_step p (password_submitted password) = save_password p password
users_step p delete_confirmed = confirm_delete p
users_step p (ended i a) = (end_task p i a).0

unfoldable pub users_run : UsersPage → List UsersEvent → UsersPage
unfolding users_step
users_run p [] = p
users_run p (e ∷ es) = users_run (users_step p e) es
