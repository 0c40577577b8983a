-- ===== src/TariffPlans/Page.antt =====
-- frontend/src/pages/TariffPlansPage/TariffPlansPage.tsx: the windows of the page, its buttons and its requests. A
-- handler that awaits is cut where it does: it leaves a task, and an event ends the task.
use vpnshiki.Prelude.{
  refl, ℕ, none, some, [], ◌∷◌, true, false, Bool-cases, List, Option, if◌then◌else◌, ◌+◌, inl, ◌≡◌,
  inr, Bool, All, get_elem?, erase_idx,
}
use vpnshiki.Api.{Fault}
use vpnshiki.Entities.TariffPlans.{TariffPlan, TariffPlanPayload}

pub data PlansWindow : Type 0 where
  create_window edit_window delete_window : PlansWindow

-- What a handler waits for: the answer to a request, or, in `closing`, that the list is fetched anew, after which the
-- window is closed.
pub data PlansTask : Type 0 where
  asking : PlansWindow → PlansTask
  closing : PlansWindow → PlansTask

-- What is asked of the server; a plan stands for its id.
pub data PlansRequest : Type 0 where
  create_plan : TariffPlanPayload → PlansRequest
  update_plan : TariffPlan → TariffPlanPayload → PlansRequest
  delete_plan : TariffPlan → PlansRequest

-- `sent` are the requests so far, the last first, and `refreshes` counts how often the list is fetched anew.
pub record TariffPlansPage : Type 0 where
  pub create_open : Bool
  pub editing : Option TariffPlan
  pub deleting : Option TariffPlan
  pub history_plan : Option TariffPlan
  pub tasks : List PlansTask
  pub sent : List PlansRequest
  pub refreshes : ℕ

abbrev pub initial : TariffPlansPage
initial = record {
  create_open = false;
  editing = none;
  deleting = none;
  history_plan = none;
  tasks = [];
  sent = [];
  refreshes = 0;
}

-- `refresh`, with what closes the window when it is over.
abbrev refresh : PlansWindow → TariffPlansPage → TariffPlansPage
refresh w p = record p { tasks = closing w ∷ p.tasks; refreshes = p.refreshes + 1 }

abbrev send : PlansRequest → PlansWindow → TariffPlansPage → TariffPlansPage
send request w p = record p { tasks = asking w ∷ p.tasks; sent = request ∷ p.sent }

-- The three handlers up to their first `await`.
unfoldable pub save_create : TariffPlansPage → TariffPlanPayload → TariffPlansPage
save_create p payload = send (create_plan payload) create_window p

abbrev save_editing : Option TariffPlan → TariffPlansPage → TariffPlanPayload → TariffPlansPage
save_editing none p payload = p
save_editing (some plan) p payload = send (update_plan plan payload) edit_window p

unfoldable pub save_edit : TariffPlansPage → TariffPlanPayload → TariffPlansPage
save_edit p payload = save_editing p.editing p payload

abbrev confirm_deleting : Option TariffPlan → TariffPlansPage → TariffPlansPage
confirm_deleting none p = p
confirm_deleting (some plan) p = send (delete_plan plan) delete_window p

unfoldable pub confirm_delete : TariffPlansPage → TariffPlansPage
confirm_delete p = confirm_deleting p.deleting p

abbrev pub close_window : PlansWindow → TariffPlansPage → TariffPlansPage
close_window create_window p = record p { create_open = false }
close_window edit_window p = record p { editing = none }
close_window delete_window p = record p { deleting = none }

-- What a handler does after its `await`, and what it throws into the form that called it; an answer without a fault is
-- `none`. Fetching anew never throws.
unfoldable pub answer : TariffPlansPage → PlansTask → Option Fault → TariffPlansPage × Option Fault
answer p (closing w) a = (close_window w p, none)
answer p (asking w) none = (refresh w p, none)
answer p (asking w) (some e) = (p, some e)

unfoldable pub end_found :
    TariffPlansPage → ℕ → Option PlansTask → Option Fault → TariffPlansPage × Option Fault
unfolding answer
end_found p i none a = (p, none)
end_found p i (some t) a = answer (record p { tasks = erase_idx p.tasks i }) t a

-- The end of the task at place `i`.
unfoldable pub end_task : TariffPlansPage → ℕ → Option Fault → TariffPlansPage × Option Fault
unfolding end_found
end_task p i a = end_found p i (get_elem? p.tasks i) a

pub data PlansEvent : Type 0 where
  create_clicked create_closed edit_closed delete_closed history_closed : PlansEvent
  edit_clicked delete_clicked history_clicked : TariffPlan → PlansEvent
  create_submitted edit_submitted : TariffPlanPayload → PlansEvent
  delete_confirmed : PlansEvent
  ended : ℕ → Option Fault → PlansEvent

-- The buttons that edit and delete are disabled for a plan that is not editable.
unfoldable pub plans_step : TariffPlansPage → PlansEvent → TariffPlansPage
unfolding save_create save_edit confirm_delete end_task
plans_step p create_clicked = record p { create_open = true }
plans_step p create_closed = record p { create_open = false }
plans_step p edit_closed = record p { editing = none }
plans_step p delete_closed = record p { deleting = none }
plans_step p history_closed = record p { history_plan = none }
plans_step p (edit_clicked plan) = if plan.is_editable then record p { editing = some plan } else p
plans_step p (delete_clicked plan) =
    if plan.is_editable then record p { deleting = some plan } else p
plans_step p (history_clicked plan) = record p { history_plan = some plan }
plans_step p (create_submitted payload) = save_create p payload
plans_step p (edit_submitted payload) = save_edit p payload
plans_step p delete_confirmed = confirm_delete p
plans_step p (ended i a) = (end_task p i a).0

unfoldable pub plans_run : TariffPlansPage → List PlansEvent → TariffPlansPage
unfolding plans_step
plans_run p [] = p
plans_run p (e ∷ es) = plans_run (plans_step p e) es

abbrev IsEditable : Option TariffPlan → Type 0
IsEditable none = Unit
IsEditable (some plan) = plan.is_editable ≡ true

-- A request that changes or deletes a plan is about one that may be changed.
abbrev pub IsPermitted : PlansRequest → Type 0
IsPermitted (create_plan payload) = Unit
IsPermitted (update_plan plan payload) = plan.is_editable ≡ true
IsPermitted (delete_plan plan) = plan.is_editable ≡ true

-- The windows that edit and delete are about plans that may be changed, and so are the requests.
abbrev pub IsAllowed : TariffPlansPage → Type 0
IsAllowed p = IsEditable p.editing × IsEditable p.deleting × All IsPermitted p.sent

save_editing-IsAllowed :
    (e : Option TariffPlan) (p : TariffPlansPage) (payload : TariffPlanPayload)
    → IsEditable e
    → IsAllowed p
    → IsAllowed (save_editing e p payload)
save_editing-IsAllowed none p payload o h = h
save_editing-IsAllowed (some plan) p payload o h = (h.0, h.1, (o, h.2))

confirm_deleting-IsAllowed :
    (d : Option TariffPlan) (p : TariffPlansPage)
    → IsEditable d
    → IsAllowed p
    → IsAllowed (confirm_deleting d p)
confirm_deleting-IsAllowed none p o h = h
confirm_deleting-IsAllowed (some plan) p o h = (h.0, h.1, (o, h.2))

end_found-IsAllowed :
    (p : TariffPlansPage) (i : ℕ) (t : Option PlansTask) (a : Option Fault)
    → IsAllowed p
    → IsAllowed (end_found p i t a).0
unfolding end_found answer
end_found-IsAllowed p i none a h = h
end_found-IsAllowed p i (some (closing create_window)) a h = h
end_found-IsAllowed p i (some (closing edit_window)) a h = (tt, h.1, h.2)
end_found-IsAllowed p i (some (closing delete_window)) a h = (h.0, tt, h.2)
end_found-IsAllowed p i (some (asking w)) none h = h
end_found-IsAllowed p i (some (asking w)) (some e) h = h

plans_step-IsAllowed :
    (p : TariffPlansPage) (e : PlansEvent) → IsAllowed p → IsAllowed (plans_step p e)
unfolding plans_step save_create save_edit confirm_delete end_task
plans_step-IsAllowed p PlansEvent.create_clicked h = h
plans_step-IsAllowed p PlansEvent.create_closed h = h
plans_step-IsAllowed p PlansEvent.edit_closed h = (tt, h.1, h.2)
plans_step-IsAllowed p PlansEvent.delete_closed h = (h.0, tt, h.2)
plans_step-IsAllowed p PlansEvent.history_closed h = h
plans_step-IsAllowed p (edit_clicked plan) h = elim (Bool-cases plan.is_editable) [
  | inl free ↦ simp free (refl, h.1, h.2)
  | inr fixed ↦ simp fixed h
]
plans_step-IsAllowed p (delete_clicked plan) h = elim (Bool-cases plan.is_editable) [
  | inl free ↦ simp free (h.0, refl, h.2)
  | inr fixed ↦ simp fixed h
]
plans_step-IsAllowed p (history_clicked plan) h = h
plans_step-IsAllowed p (create_submitted payload) h = (h.0, h.1, (tt, h.2))
plans_step-IsAllowed p (edit_submitted payload) h = save_editing-IsAllowed p.editing p payload h.0 h
plans_step-IsAllowed p delete_confirmed h = confirm_deleting-IsAllowed p.deleting p h.1 h
plans_step-IsAllowed p (ended i a) h = end_found-IsAllowed p i (get_elem? p.tasks i) a h

plans_run-IsAllowed :
    (p : TariffPlansPage) (es : List PlansEvent) → IsAllowed p → IsAllowed (plans_run p es)
unfolding plans_run
plans_run-IsAllowed p [] h = h
plans_run-IsAllowed p (e ∷ es) h =
    plans_run-IsAllowed (plans_step p e) es (plans_step-IsAllowed p e h)

-- Whatever is clicked and submitted, and however the requests end and interleave, the page never edits a plan that the
-- server marked as not editable, nor asks the server to change or delete one.
pub plans_run-initial-IsAllowed : (es : List PlansEvent) → IsAllowed (plans_run initial es)
plans_run-initial-IsAllowed es = plans_run-IsAllowed initial es (tt, tt, tt)
