-- ===== src/TariffPlans/Charge.antt =====
-- `calculateDailyCharge` of frontend/src/entities/tariffPlan/utils.ts: the share of a month's amount
-- that each active user pays for one day, rounded half up to kopecks. The two divisions are exact here.
use native.Mathlib.Nat.{div-mul-le_self, lt-div-mul-add}
use Prim.Native.Nat.{zero, suc}
use vpnshiki.Prelude.{
  ℕ, none, some, zero, suc, Option, ◌*◌, ◌≤◌, Bool, ◌+◌, if◌then◌else◌, not, ◌/◌, ◌&&◌, ◌||◌, ◌==◌,
  ◌<◌, ◌≡◌, arith,
}
use vpnshiki.Money.{Decimal, number, round_cents, to_fixed}
use vpnshiki.Prelude.Int.{ℤ, pos, negsuc}
use vpnshiki.Text.{Text}

-- `Math.round(monthlyKopecks / daysInMonth / activeUsers)`
unfoldable pub daily_kopecks : ℕ → ℕ → ℕ → ℕ
daily_kopecks monthly days users = (2 * monthly + days * users) / (2 * (days * users))

-- `amount > 0`
abbrev is_positive : Decimal → Bool
is_positive amount = not amount.negative && not (amount.digits == 0)

-- An amount that is positive is rounded to kopecks that are not negative.
abbrev charge_of : ℤ → ℕ → ℕ → Text
charge_of (pos monthly) days users = to_fixed (some (pos (daily_kopecks monthly days users)))
charge_of (negsuc n) days users = to_fixed none

abbrev charge_from : Option Decimal → ℕ → ℕ → Option Text
charge_from none days users = none
charge_from (some amount) days users =
    if not (is_positive amount) || days == 0 || users == 0
    then none
    else some (charge_of (round_cents amount) days users)

unfoldable pub calculate_daily_charge : Text → ℕ → ℕ → Option Text
unfolding number round_cents to_fixed daily_kopecks
calculate_daily_charge monthly_amount days users = charge_from (number monthly_amount) days users

one_le_mul : (a b : ℕ) → 1 ≤ a → 1 ≤ b → 1 ≤ a * b
one_le_mul (suc a) (suc b) h k = omega arith
one_le_mul zero b h k = absurd (omega arith)
one_le_mul a zero h k = absurd (omega arith)

-- Rounding half up by a division is off by half the divisor at most.
rounded_bounds :
    (n s q : ℕ)
    → q * (2 * s) ≤ n + s
    → n + s < (q + 1) * (2 * s)
    → (2 * (q * s) ≤ n + s) × (n ≤ 2 * (q * s) + s)
rounded_bounds n s q low high =
    let double : q * (2 * s) ≡ 2 * (q * s) = omega arith in
    let next : (q + 1) * (2 * s) ≡ 2 * (q * s) + 2 * s = omega arith in (omega arith, omega arith)

-- What all users pay in all days differs from the month's amount by half a kopeck at most for each
-- user and day.
pub daily_kopecks_bounds :
    (monthly days users : ℕ)
    → 1 ≤ days
    → 1 ≤ users
    → let shares = days * users in
      let charged = daily_kopecks monthly days users * shares in
      (2 * charged ≤ 2 * monthly + shares) × (2 * monthly ≤ 2 * charged + shares)
unfolding daily_kopecks
daily_kopecks_bounds monthly days users h k =
    let shares = days * users in
    let some_share : 1 ≤ shares = one_le_mul days users h k in
    rounded_bounds (2 * monthly) shares (daily_kopecks monthly days users)
      (div-mul-le_self (2 * monthly + shares) (2 * shares))
      (omega (
        arith,
        lt-div-mul-add {a = 2 * monthly + shares} {b = 2 * shares} (omega (arith, some_share)),
      ))
