-- ===== src/Ui/FieldSelect/Cycle.antt =====
-- The arrow keys go round the options that are not disabled.
use Prim.Native.Nat.{zero, suc}
use vpnshiki.Ui.FieldSelect.{next_position, Direction, down, up}
use vpnshiki.Prelude.{
  ℕ, some, zero, suc, inl, inr, ◌<◌, ◌+◌, ◌≡◌, ◌%◌, ◌==◌, ◌-◌, Bool-cases, ap, arith, ◌∙◌,
}
use native.Mathlib.Nat.{mod-eq_of_lt, mod_self, add-mod_right}

-- One round more is the same place.
add-mod_round : (k n : ℕ) → k < n → (k + n) % n ≡ k
add-mod_round k n h = add-mod_right k n ∙ mod-eq_of_lt h

abbrev pub opposite : Direction → Direction
opposite down = up
opposite up = down

pub down_within : (n i : ℕ) → i + 1 < n → next_position down (some i) n ≡ i + 1
unfolding next_position
down_within n i h = add-mod_round (i + 1) n h

pub down_last : (n i : ℕ) → i + 1 ≡ n → next_position down (some i) n ≡ 0
unfolding next_position
down_last n i h = ap (λ k. (k + n) % n) h ∙ add-mod_right n n ∙ mod_self n

pub up_first : (n : ℕ) → 0 < n → next_position up (some 0) n ≡ n - 1
unfolding next_position
up_first n h =
    let same : 0 + n - 1 ≡ n - 1 = omega arith in
    ap (λ k. k % n) same ∙ mod-eq_of_lt (omega (arith, h))

pub up_within : (n i : ℕ) → i + 1 < n → next_position up (some (i + 1)) n ≡ i
unfolding next_position
up_within n i h =
    let same : i + 1 + n - 1 ≡ i + n = omega arith in
    ap (λ k. k % n) same ∙ add-mod_round i n (omega (arith, h))

-- What a place leads to, given there and back.
leads_back :
    (d : Direction) (n i j : ℕ)
    → next_position d (some i) n ≡ j
    → j < n
    → next_position (opposite d) (some j) n ≡ i
    → (next_position d (some i) n < n)
      × (next_position (opposite d) (some (next_position d (some i) n)) n ≡ i)
leads_back d n i j e h back = (rw e h, ap (λ k. next_position (opposite d) (some k) n) e ∙ back)

-- From a place in the list an arrow key leads to a place in the list, from which the other arrow key
-- leads back.
pub next_position-opposite :
    (d : Direction) (n i : ℕ)
    → i < n
    → (next_position d (some i) n < n)
      × (next_position (opposite d) (some (next_position d (some i) n)) n ≡ i)
next_position-opposite down n i h = elim (Bool-cases (i + 1 == n)) [
  | inl last ↦
      let all : i + 1 ≡ n = ground arith in
      let same : n - 1 ≡ i = omega (arith, all) in
      leads_back down n i 0 (down_last n i all) (omega (arith, h))
        (up_first n (omega (arith, h)) ∙ same)
  | inr before ↦
      let within : i + 1 < n = ground arith in
      leads_back down n i (i + 1) (down_within n i within) within (up_within n i within)
]
next_position-opposite up n zero h =
    leads_back up n 0 (n - 1) (up_first n h) (omega (arith, h))
      (down_last n (n - 1) (omega (arith, h)))
next_position-opposite up n (suc i) h =
    let same : suc i ≡ i + 1 = omega arith in
    let back : i + 1 ≡ suc i = omega arith in
    leads_back up n (suc i) i
      (ap (λ k. next_position up (some k) n) same ∙ up_within n i (omega (arith, h)))
      (omega (arith, h)) (down_within n i (omega (arith, h)) ∙ back)
