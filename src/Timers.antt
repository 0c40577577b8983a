-- ===== src/Timers.antt =====
-- setTimeout and clearTimeout as the components of frontend/src use them: a value that a timer resets.
-- Time passes in whole milliseconds.
pub mod Recent
use vpnshiki.Prelude.{
  ℕ, none, some, [], ◌∷◌, zero, suc, true, false, inl, inr, refl, Bool, List, Option, filter,
  if◌then◌else◌, leb, not, ◌-◌, ◌||◌, ◌==◌,
}

pub record Timer : Type 0 where
  pub id : ℕ
  pub remaining : ℕ

-- The timers that have not fired, and the id that the next one gets.
pub record Timers : Type 0 where
  pub next_id : ℕ
  pub pending : List Timer

abbrev pub no_timers : Timers
no_timers = record { next_id = 1; pending = [] }

abbrev pub start : ℕ → Timers → Timers
start ms ts = record {
  next_id = suc ts.next_id;
  pending = record { id = ts.next_id; remaining = ms } ∷ ts.pending;
}

-- Clearing a timer that has fired does nothing.
abbrev pub clear : ℕ → Timers → Timers
clear id ts = record ts { pending = filter (λ t. not (t.id == id)) ts.pending }

-- `if (ref.current !== null) window.clearTimeout(ref.current)`
abbrev pub clear_ref : Option ℕ → Timers → Timers
clear_ref none ts = ts
clear_ref (some id) ts = clear id ts

abbrev pub fires : Timer → Bool
fires t = leb t.remaining 1

-- Whether a timer fires in the next millisecond, and the timers after it.
abbrev pub any_fires : List Timer → Bool
any_fires [] = false
any_fires (t ∷ ts) = fires t || any_fires ts

abbrev pub later : List Timer → List Timer
later [] = []
later (t ∷ ts) =
    let rest = later ts in
    if fires t then rest else record { id = t.id; remaining = t.remaining - 1 } ∷ rest

-- A value with the `ref` that holds the id of its timer.
pub record Flash (A : Type 0) : Type 0 where
  pub value : A
  pub reset_timer : Option ℕ
  pub timers : Timers

abbrev pub idle : {A : Type 0} → A → Flash A
idle a = record { value = a; reset_timer = none; timers = no_timers }

-- The value is set, the timer of the last one is cleared, and a new timer is started.
unfoldable pub flash : {A : Type 0} → ℕ → A → Flash A → Flash A
flash ms a s =
    let rest = clear_ref s.reset_timer s.timers in
    record { value = a; reset_timer = some rest.next_id; timers = start ms rest }

-- A millisecond: a timer that fires resets the value to `rest`.
unfoldable pub elapse : {A : Type 0} → A → Flash A → Flash A
elapse rest s = record s {
  value = if any_fires s.timers.pending then rest else s.value;
  timers = record s.timers { pending = later s.timers.pending };
}
