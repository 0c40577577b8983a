-- ===== src/Users/TelegramId.antt =====
-- Which Telegram ids the form accepts, as numbers.
use vpnshiki.Users.Form.{
  all_digits, drop_zeros, check_normalized, check_trimmed, validate_tg_user_id, accepted, or_zero,
}
use vpnshiki.Prelude.{
  ℕ, [], ◌∷◌, suc, true, inl, inr, refl, ◌*◌, ◌≡◌, Bool-cases, ◌+◌, ◌^◌, length, ◌-◌, ◌==◌, ◌≤◌,
  ◌<◌, arith, ◌≢◌, ◌↔◌, ◌⊎◌, false, ltb,
}
use vpnshiki.Text.{Text, trim}
use native.Mathlib.Nat.{pow-suc, mul-le-mul_right, one-le-pow, pow-le-pow_right}

-- The number that a text of digits stands for, after the digits of `n`.
abbrev pub value_from : ℕ → Text → ℕ
value_from n [] = n
value_from n (c ∷ s) = value_from (n * 10 + (c - b'0')) s

abbrev pub value : Text → ℕ
value s = value_from 0 s

value-drop_zeros : (s : Text) → value (drop_zeros s) ≡ value s
unfolding drop_zeros
value-drop_zeros [] = refl
value-drop_zeros (c ∷ s) = elim (Bool-cases (c == b'0')) [
  | inl nil ↦
      let start : 0 * 10 + (c - b'0') ≡ 0 = ground arith in rw (nil, start) (value-drop_zeros s)
  | inr other ↦ rw other refl
]

bounds_step :
    (n d p v : ℕ)
    → d ≤ 9
    → (n * 10 + d) * p ≤ v
    → v < (n * 10 + d + 1) * p
    → (n * (p * 10) ≤ v) × (v < (n + 1) * (p * 10))
bounds_step n d p v h k l =
    let dp : d * p ≤ 9 * p = mul-le-mul_right p h in (omega arith, omega arith)

value_from_bounds :
    (n : ℕ) (s : Text)
    → all_digits s ≡ true
    → (n * 10 ^ length s ≤ value_from n s) × (value_from n s < (n + 1) * 10 ^ length s)
unfolding all_digits
value_from_bounds n [] h = (omega arith, omega arith)
value_from_bounds n (c ∷ s) h =
    let ih = value_from_bounds (n * 10 + (c - b'0')) s (ground arith) in
    rw (pow-suc 10 (length s)) (
      bounds_step n (c - b'0') (10 ^ length s) (value_from (n * 10 + (c - b'0')) s) (ground arith)
        ih.0 ih.1)

-- No leading zero.
abbrev IsNormal : Text → Type 0
IsNormal [] = Unit
IsNormal (c ∷ s) = c ≢ b'0'

drop_zeros-IsNormal : (s : Text) → IsNormal (drop_zeros s)
unfolding drop_zeros
drop_zeros-IsNormal [] = tt
drop_zeros-IsNormal (c ∷ s) = elim (Bool-cases (c == b'0')) [
  | inl nil ↦ rw nil (drop_zeros-IsNormal s)
  | inr other ↦ rw other (λ e. ground arith)
]

all_digits-drop_zeros : (s : Text) → all_digits s ≡ true → all_digits (drop_zeros s) ≡ true
unfolding drop_zeros all_digits
all_digits-drop_zeros [] h = h
all_digits-drop_zeros (c ∷ s) h = elim (Bool-cases (c == b'0')) [
  | inl nil ↦ rw nil (all_digits-drop_zeros s (ground arith))
  | inr other ↦ rw other h
]

normal_bounds :
    (c : ℕ) (s : Text)
    → all_digits (c ∷ s) ≡ true
    → c ≢ b'0'
    → (10 ^ length s ≤ value (c ∷ s)) × (value (c ∷ s) < 10 ^ suc (length s))
unfolding all_digits
normal_bounds c s h n =
    let d = 0 * 10 + (c - b'0') in
    let low : 1 ≤ d = ground arith in
    let high : d + 1 ≤ 10 = ground arith in
    let b = value_from_bounds d s (ground arith) in
    let p = 10 ^ length s in
    let lp : 1 * p ≤ d * p = mul-le-mul_right p low in
    let hp : (d + 1) * p ≤ 10 * p = mul-le-mul_right p high in
    rw (pow-suc 10 (length s)) (omega (arith, b.0, lp), omega (arith, b.1, hp))

check_normalized_lem :
    (s : Text)
    → all_digits s ≡ true
    → IsNormal s
    → (check_normalized (or_zero s) ≡ accepted) ↔ ((1 ≤ value s) × (value s < 10 ^ 20))
unfolding check_normalized
check_normalized_lem [] h n = ((λ e. cc), λ b. absurd (omega (arith, b.0)))
check_normalized_lem (c ∷ s) h n =
    let b = normal_bounds c s h n in
    let pos : 1 ≤ 10 ^ length s = one-le-pow (length s) 10 (omega arith) in
    let short = λ (l : suc (length s) ≤ 20). pow-le-pow_right {n = 10} (omega arith) l in
    let long = λ (l : 20 ≤ length s). pow-le-pow_right {n = 10} (omega arith) l in
    let not_nil : (c == b'0') ≡ false = ground arith in
    elim (Bool-cases (ltb 20 (suc (length s)))) [
      | inl too ↦
          rw (not_nil, too) ((λ e. cc), λ v. absurd (omega (arith, v.1, b.0, long (ground arith))))
      | inr fits ↦
          rw (not_nil, fits)
            ((λ e. (omega (arith, pos, b.0), omega (arith, b.1, short (ground arith)))), λ v. refl)
    ]

check_trimmed_lem :
    (s : Text)
    → (check_trimmed s ≡ accepted)
      ↔ ((s ≡ []) ⊎ ((all_digits s ≡ true) × (1 ≤ value s) × (value s < 10 ^ 20)))
unfolding check_trimmed
check_trimmed_lem [] = ((λ e. inl refl), λ h. refl)
check_trimmed_lem (c ∷ s) = elim (Bool-cases (all_digits (c ∷ s))) [
  | inl digits ↦
      let normal =
        check_normalized_lem (drop_zeros (c ∷ s)) (all_digits-drop_zeros (c ∷ s) digits)
          (drop_zeros-IsNormal (c ∷ s)) in
      let same = value-drop_zeros (c ∷ s) in
      rw digits (
        (λ e. inr (refl, rw same at ((normal.0 e).0), rw same at ((normal.0 e).1))),
        (λ h. elim h [
          | inl e ↦ cc
          | inr (d, low, high) ↦ normal.1 (omega (arith, same, low), omega (arith, same, high))
        ]),
      )
  | inr other ↦ rw other ((λ e. cc), λ h. grind arith)
]

-- The form accepts a Telegram id exactly if it is blank or, without the white space around it, is
-- made of digits and stands for a number from 1 to 10 ^ 20 - 1, however many zeros lead it.
pub validate_tg_user_id-accepted_iff :
    (id : Text)
    → (validate_tg_user_id id ≡ accepted) ↔ (
        (trim id ≡ [])
        ⊎ ((all_digits (trim id) ≡ true) × (1 ≤ value (trim id)) × (value (trim id) < 10 ^ 20)))
unfolding validate_tg_user_id
validate_tg_user_id-accepted_iff id = check_trimmed_lem (trim id)
