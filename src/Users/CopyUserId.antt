-- ===== src/Users/CopyUserId.antt =====
-- frontend/src/pages/UsersPage/components/CopyUserIdButton/CopyUserIdButton.tsx: the button that copies the id
-- of an account.
use vpnshiki.Prelude.{ℕ, none, some, [], ◌∷◌, true, false, Bool, List, String, ◌≡◌, arith}
use vpnshiki.Timers.{Flash, flash, elapse, idle}
use vpnshiki.Timers.Recent.{
  Latest, Follows, older, flash-Follows, recent, Follows-recent, elapse-Follows, idle-Follows,
}

abbrev pub id_copied_duration : ℕ
id_copied_duration = 1600

-- How a click ended: without a clipboard, or as the clipboard answered.
pub data IdCopyEvent : Type 0 where
  clipboard_missing : IdCopyEvent
  written : (successful : Bool) → IdCopyEvent
  millisecond : IdCopyEvent

unfoldable pub id_copy_step : Flash Bool → IdCopyEvent → Flash Bool
unfolding flash elapse
id_copy_step s clipboard_missing = s
id_copy_step s (written false) = s
id_copy_step s (written true) = flash id_copied_duration true s
id_copy_step s millisecond = elapse false s

abbrev pub id_copy_title : Bool → String
id_copy_title true = "ID скопирован"
id_copy_title false = "Скопировать ID"

unfoldable pub id_copy_run : Flash Bool → List IdCopyEvent → Flash Bool
unfolding id_copy_step
id_copy_run s [] = s
id_copy_run s (e ∷ es) = id_copy_run (id_copy_step s e) es

abbrev pub last_written : Latest Bool → IdCopyEvent → Latest Bool
last_written l (written true) = some (true, 0)
last_written l millisecond = older l
last_written l _ = l

unfoldable pub last_id_copy : Latest Bool → List IdCopyEvent → Latest Bool
last_id_copy l [] = l
last_id_copy l (e ∷ es) = last_id_copy (last_written l e) es

id_copy_step-Follows :
    (s : Flash Bool) (l : Latest Bool) (e : IdCopyEvent)
    → Follows id_copied_duration false s l
    → Follows id_copied_duration false (id_copy_step s e) (last_written l e)
unfolding id_copy_step
id_copy_step-Follows s l clipboard_missing f = f
id_copy_step-Follows s l (written false) f = f
id_copy_step-Follows s l (written true) f =
    flash-Follows id_copied_duration false s l true (omega arith) f
id_copy_step-Follows s l millisecond f = elapse-Follows id_copied_duration false s l f

id_copy_run-Follows :
    (s : Flash Bool) (l : Latest Bool) (es : List IdCopyEvent)
    → Follows id_copied_duration false s l
    → Follows id_copied_duration false (id_copy_run s es) (last_id_copy l es)
unfolding id_copy_run last_id_copy
id_copy_run-Follows s l [] f = f
id_copy_run-Follows s l (e ∷ es) f =
    id_copy_run-Follows (id_copy_step s e) (last_written l e) es (id_copy_step-Follows s l e f)

-- The button says that the id was copied exactly in the 1600 milliseconds after the last copy that succeeded.
pub id_copy_run-recent :
    (es : List IdCopyEvent)
    → (id_copy_run (idle false) es).value ≡ recent id_copied_duration false (last_id_copy none es)
id_copy_run-recent es =
    Follows-recent id_copied_duration false (id_copy_run (idle false) es) (last_id_copy none es)
      (id_copy_run-Follows (idle false) none es (idle-Follows id_copied_duration false))
