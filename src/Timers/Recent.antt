-- ===== src/Timers/Recent.antt =====
-- A value that a timer resets shows what was set last, as long as that is recent.
use vpnshiki.Prelude.{
  ℕ, none, some, [], ◌∷◌, zero, suc, refl, Option, if◌then◌else◌, ◌<◌, ◌≡◌, arith, ltb, ◌≤◌, ◌+◌,
}
use vpnshiki.Timers.{Flash, elapse, flash, idle, Timers, clear_ref}

-- What was set last, and the milliseconds since then.
abbrev pub Latest : Type 0 → Type 0
Latest A = Option (A × ℕ)

abbrev pub older : {A : Type 0} → Latest A → Latest A
older none = none
older (some (a, age)) = some (a, suc age)

-- What was set less than `ms` milliseconds ago, or else `rest`.
abbrev pub recent : {A : Type 0} → ℕ → A → Latest A → A
recent ms rest none = rest
recent ms rest (some (a, age)) = if ltb age ms then a else rest

pred_cases : (n : ℕ) → 0 < n → (k : ℕ) × (suc k ≡ n)
pred_cases zero h = ground (arith, h)
pred_cases (suc k) h = (k, refl)

-- What is pending after the timer of the last value is cleared.
clear_ref-nil : (r : Option ℕ) (ts : Timers) → ts.pending ≡ [] → (clear_ref r ts).pending ≡ []
clear_ref-nil none ts h = h
clear_ref-nil (some id) ts h = rw h refl

clear_ref-own :
    (r : Option ℕ) (ts : Timers) (id left : ℕ)
    → r ≡ some id
    → ts.pending ≡ record { id = id; remaining = left } ∷ []
    → (clear_ref r ts).pending ≡ []
clear_ref-own r ts id left e h = rw (e, h) ground arith

module _ {A : Type 0} (ms : ℕ) (rest : A) where
  abbrev IsOld : Latest A → Type 0
  IsOld none = Unit
  IsOld (some (a, age)) = ms ≤ age

  -- Either no timer is pending and nothing recent was set, or one timer is, with the time left.
  pub data Follows (s : Flash A) (l : Latest A) : Type 0 where
    quiet : s.value ≡ rest → s.timers.pending ≡ [] → IsOld l → Follows s l
    shows :
        (a : A) (age left id : ℕ)
        → l ≡ some (a, age)
        → age + suc left ≡ ms
        → s.value ≡ a
        → s.reset_timer ≡ some id
        → s.timers.pending ≡ record { id = id; remaining = suc left } ∷ []
        → Follows s l

  pub idle-Follows : Follows (idle rest) none
  idle-Follows = quiet refl refl tt

  cleared :
      (s : Flash A) (l : Latest A) → Follows s l → (clear_ref s.reset_timer s.timers).pending ≡ []
  cleared s l (quiet v p old) = clear_ref-nil s.reset_timer s.timers p
  cleared s l (shows a age left id e h v r p) =
      clear_ref-own s.reset_timer s.timers id (suc left) r p

  pub flash-Follows :
      (s : Flash A) (l : Latest A) (a : A)
      → 0 < ms
      → Follows s l
      → Follows (flash ms a s) (some (a, 0))
  unfolding flash
  flash-Follows s l a h f =
      let (left, e) = pred_cases ms h in
      shows a 0 left (clear_ref s.reset_timer s.timers).next_id refl (omega (arith, e)) refl refl
        (rw (cleared s l f, e) refl)

  older-IsOld : (l : Latest A) → IsOld l → IsOld (older l)
  older-IsOld none old = tt
  older-IsOld (some (b, before)) old = omega (arith, old)

  pub elapse-Follows :
      (s : Flash A) (l : Latest A) → Follows s l → Follows (elapse rest s) (older l)
  unfolding elapse
  elapse-Follows s l (quiet v p old) = quiet (rw p v) (rw p refl) (older-IsOld l old)
  elapse-Follows s l (shows a age zero id e h v r p) =
      quiet (rw p refl) (rw p refl) (rw e omega (arith, h))
  elapse-Follows s l (shows a age (suc left) id e h v r p) =
      shows a (suc age) left id (rw e refl) (omega (arith, h)) (rw p ground (arith, v)) r
        (rw p ground arith)

  -- The value is the one set last, if that is recent, and else the value at rest.
  pub Follows-recent : (s : Flash A) (l : Latest A) → Follows s l → s.value ≡ recent ms rest l
  Follows-recent s none (quiet v p old) = v
  Follows-recent s (some (a, age)) (quiet v p old) = ground (arith, v, old)
  Follows-recent s l (shows a age left id e h v r p) = rw (e, v) ground (arith, h)
