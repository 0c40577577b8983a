-- ===== src/Vpn/CopyButton.antt =====
-- frontend/src/pages/OverviewPage/components/VpnAccessPanel/components/CopyButton/CopyButton.tsx: the
-- mark of a button after a copy.
use vpnshiki.Prelude.{ℕ, none, some, [], ◌∷◌, true, false, Bool, List, ◌≡◌, arith}
use vpnshiki.Timers.{Flash, flash, elapse, idle}
use vpnshiki.Timers.Recent.{
  Latest, Follows, older, flash-Follows, recent, Follows-recent, elapse-Follows, idle-Follows,
}

abbrev pub copied_state_duration : ℕ
copied_state_duration = 2000

-- How a copy ended, and time; several copies may be under way.
pub data CopyEvent : Type 0 where
  copy_ended : (successful : Bool) → CopyEvent
  millisecond : CopyEvent

-- `handleCopy` after its copy, and the callback of its timer.
unfoldable pub copy_step : Flash Bool → CopyEvent → Flash Bool
unfolding flash elapse
copy_step s (copy_ended false) = s
copy_step s (copy_ended true) = flash copied_state_duration true s
copy_step s millisecond = elapse false s

unfoldable pub copy_run : Flash Bool → List CopyEvent → Flash Bool
unfolding copy_step
copy_run s [] = s
copy_run s (e ∷ es) = copy_run (copy_step s e) es

-- The specification: how long ago the last copy was that succeeded.
unfoldable pub last_copy : Latest Bool → List CopyEvent → Latest Bool
last_copy l [] = l
last_copy l (copy_ended false ∷ es) = last_copy l es
last_copy l (copy_ended true ∷ es) = last_copy (some (true, 0)) es
last_copy l (millisecond ∷ es) = last_copy (older l) es

copy_run-Follows :
    (s : Flash Bool) (l : Latest Bool) (es : List CopyEvent)
    → Follows copied_state_duration false s l
    → Follows copied_state_duration false (copy_run s es) (last_copy l es)
unfolding copy_run copy_step last_copy
copy_run-Follows s l [] f = f
copy_run-Follows s l (copy_ended false ∷ es) f = copy_run-Follows s l es f
copy_run-Follows s l (copy_ended true ∷ es) f =
    copy_run-Follows (flash copied_state_duration true s) (some (true, 0)) es
      (flash-Follows copied_state_duration false s l true (omega arith) f)
copy_run-Follows s l (millisecond ∷ es) f =
    copy_run-Follows (elapse false s) (older l) es
      (elapse-Follows copied_state_duration false s l f)

-- A copy button is marked as copied exactly if a copy has succeeded and the last one that did is less
-- than 2000 milliseconds old, whatever copies were made before and however they overlapped.
pub copy_run-recent :
    (es : List CopyEvent)
    → (copy_run (idle false) es).value ≡ recent copied_state_duration false (last_copy none es)
copy_run-recent es =
    Follows-recent copied_state_duration false (copy_run (idle false) es) (last_copy none es)
      (copy_run-Follows (idle false) none es (idle-Follows copied_state_duration false))
