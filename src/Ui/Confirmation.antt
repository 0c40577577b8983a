-- ===== src/Ui/Confirmation.antt =====
-- frontend/src/pages/UsersPage/components/DeleteUserConfirmation/DeleteUserConfirmation.tsx and
-- frontend/src/pages/TariffPlansPage/components/DeleteTariffPlanConfirmation/DeleteTariffPlanConfirmation.tsx:
-- the window that asks before something is deleted.
use vpnshiki.Api.{unexpected, api, ok, err, Result, Fault}
use vpnshiki.Prelude.{
  ℕ, [], ◌∷◌, true, false, refl, Bool, List, String, ◌+◌, ◌≤◌, if◌then◌else◌, ◌-◌, ◌≡◌, ◌==◌, arith,
}
use vpnshiki.Ui.Button.{Button, takes_clicks}

-- Beside the component's state: the requests that are under way, those that were refused, and whether one
-- succeeded or the window was told to go.
pub record Confirmation : Type 0 where
  pub pending : Bool
  pub error : String
  pub in_flight : ℕ
  pub refused : ℕ
  pub sent : ℕ
  pub deleted : Bool
  pub cancelled : Bool

abbrev pub initial : Confirmation
initial = record {
  pending = false;
  error = "";
  in_flight = 0;
  refused = 0;
  sent = 0;
  deleted = false;
  cancelled = false;
}

pub data ConfirmationEvent : Type 0 where
  cancel_clicked confirm_clicked : ConfirmationEvent
  request_ended : Result (Unit {0}) → ConfirmationEvent

abbrev pub cancel_button : Confirmation → Button
cancel_button s = record { disabled = s.pending; loading = false }

abbrev pub confirm_button : Confirmation → Button
confirm_button s = record { disabled = false; loading = s.pending }

abbrev pub message_or : String → Fault → String
message_or default unexpected = default
message_or default (api e) = e.message

-- The two ends of `await onConfirm()`.
unfoldable pub end_confirm : String → Confirmation → Result (Unit {0}) → Confirmation
end_confirm default s (ok _) = record s { in_flight = s.in_flight - 1; deleted = true }
end_confirm default s (err e) = record s {
  in_flight = s.in_flight - 1;
  refused = s.refused + 1;
  error = message_or default e;
  pending = false;
}

unfoldable pub confirm : Confirmation → Confirmation
confirm s = record s { pending = true; error = ""; in_flight = s.in_flight + 1; sent = s.sent + 1 }

-- A request ends only if one is under way.
unfoldable pub confirmation_step : String → Confirmation → ConfirmationEvent → Confirmation
unfolding takes_clicks confirm end_confirm
confirmation_step default s cancel_clicked =
    if takes_clicks (cancel_button s) then record s { cancelled = true } else s
confirmation_step default s confirm_clicked =
    if takes_clicks (confirm_button s) then confirm s else s
confirmation_step default s (request_ended r) =
    if s.in_flight == 0 then s else end_confirm default s r

unfoldable pub confirmation_run : String → Confirmation → List ConfirmationEvent → Confirmation
unfolding confirmation_step
confirmation_run default s [] = s
confirmation_run default s (e ∷ es) = confirmation_run default (confirmation_step default s e) es

unfoldable pub delete_user_run : List ConfirmationEvent → Confirmation
unfolding confirmation_run
delete_user_run es = confirmation_run "Не удалось удалить пользователя" initial es

unfoldable pub delete_tariff_plan_run : List ConfirmationEvent → Confirmation
unfolding confirmation_run
delete_tariff_plan_run es = confirmation_run "Не удалось удалить тарифный план" initial es

-- At most one request is under way, and every request but the last was refused; after one that succeeded no
-- other is sent, and the buttons of the window stay disabled.
pub record IsExclusive (s : Confirmation) : Type 0 where
  pub one_request : s.in_flight ≤ 1
  pub sent_again : s.sent ≡ s.refused + s.in_flight + (if s.deleted then 1 else 0)
  pub waits : s.in_flight ≡ 1 → s.pending ≡ true
  pub stays : s.deleted ≡ true → (s.pending ≡ true) × (s.in_flight ≡ 0)
  pub idle : s.in_flight ≡ 0 → s.deleted ≡ false → s.pending ≡ false

if-IsExclusive :
    (b : Bool) (s t : Confirmation)
    → (b ≡ true → IsExclusive s)
    → (b ≡ false → IsExclusive t)
    → IsExclusive (if b then s else t)
if-IsExclusive true s t h k = h refl
if-IsExclusive false s t h k = k refl

free_of_clicks :
    (b : Bool) → takes_clicks (record { disabled = false; loading = b }) ≡ true → b ≡ false
unfolding takes_clicks
free_of_clicks b h = ground (arith, h)

-- With the buttons enabled nothing is under way, and nothing was deleted.
at_rest :
    (s : Confirmation) → IsExclusive s → s.pending ≡ false → (s.in_flight ≡ 0) × (s.deleted ≡ false)
at_rest s w free = (ground (arith, w.waits, w.one_request, free), ground (arith, w.stays, free))

-- With a request under way there is one, and nothing was deleted.
busy_once :
    (s : Confirmation)
    → IsExclusive s
    → (s.in_flight == 0) ≡ false
    → (s.in_flight ≡ 1) × (s.pending ≡ true) × (s.deleted ≡ false)
busy_once s w busy =
    let one : s.in_flight ≡ 1 = ground (arith, w.one_request, busy) in
    (one, w.waits one, ground (arith, w.stays, one))

confirm-IsExclusive :
    (s : Confirmation) → s.pending ≡ false → IsExclusive s → IsExclusive (confirm s)
unfolding confirm
confirm-IsExclusive s free w =
    let (none_left, kept) = at_rest s w free in
    record {
      one_request = omega (arith, none_left);
      sent_again = omega (arith, w.sent_again);
      waits = λ h. refl;
      stays = λ h. ground (arith, h, kept);
      idle = λ h k. ground (arith, h);
    }

end_confirm-IsExclusive :
    (default : String) (s : Confirmation) (r : Result (Unit {0}))
    → (s.in_flight == 0) ≡ false
    → IsExclusive s
    → IsExclusive (end_confirm default s r)
unfolding end_confirm
end_confirm-IsExclusive default s (ok _) busy w =
    let (one, waiting, kept) = busy_once s w busy in
    record {
      one_request = omega (arith, one);
      sent_again = ground (arith, w.sent_again, one, kept);
      waits = λ h. waiting;
      stays = λ h. (waiting, omega (arith, one));
      idle = λ h k. cc;
    }
end_confirm-IsExclusive default s (err e) busy w =
    let (one, waiting, kept) = busy_once s w busy in
    record {
      one_request = omega (arith, one);
      sent_again = ground (arith, w.sent_again, one, kept);
      waits = λ h. ground (arith, h, one);
      stays = λ h. ground (arith, h, kept);
      idle = λ h k. refl;
    }

confirmation_step-IsExclusive :
    (default : String) (s : Confirmation) (e : ConfirmationEvent)
    → IsExclusive s
    → IsExclusive (confirmation_step default s e)
unfolding confirmation_step
confirmation_step-IsExclusive default s cancel_clicked w =
    if-IsExclusive (takes_clicks (cancel_button s)) (record s { cancelled = true }) s
      (λ h. record {
        one_request = w.one_request;
        sent_again = w.sent_again;
        waits = w.waits;
        stays = w.stays;
        idle = w.idle;
      })
      (λ h. w)
confirmation_step-IsExclusive default s confirm_clicked w =
    if-IsExclusive (takes_clicks (confirm_button s)) (confirm s) s
      (λ h. confirm-IsExclusive s (free_of_clicks s.pending h) w) (λ h. w)
confirmation_step-IsExclusive default s (request_ended r) w =
    if-IsExclusive (s.in_flight == 0) s (end_confirm default s r) (λ h. w)
      (λ h. end_confirm-IsExclusive default s r h w)

confirmation_run-IsExclusive :
    (default : String) (s : Confirmation) (es : List ConfirmationEvent)
    → IsExclusive s
    → IsExclusive (confirmation_run default s es)
unfolding confirmation_run
confirmation_run-IsExclusive default s [] w = w
confirmation_run-IsExclusive default s (e ∷ es) w =
    confirmation_run-IsExclusive default (confirmation_step default s e) es
      (confirmation_step-IsExclusive default s e w)

initial-IsExclusive : IsExclusive initial
initial-IsExclusive = record {
  one_request = omega arith;
  sent_again = refl;
  waits = λ h. ground (arith, h);
  stays = λ h. cc;
  idle = λ h k. refl;
}

-- In both windows that ask before a deletion, whatever is clicked, at most one request is under way, each
-- request that is sent again follows one that was refused, and once one has succeeded no other is sent.
pub delete_runs-IsExclusive :
    (es : List ConfirmationEvent)
    → IsExclusive (delete_user_run es) × IsExclusive (delete_tariff_plan_run es)
unfolding delete_user_run delete_tariff_plan_run
delete_runs-IsExclusive es = (
  confirmation_run-IsExclusive _ initial es initial-IsExclusive,
  confirmation_run-IsExclusive _ initial es initial-IsExclusive,
)
