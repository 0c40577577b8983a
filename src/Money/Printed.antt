-- ===== src/Money/Printed.antt =====
-- frontend/src/shared/lib/money and the sums of frontend/src/entities/user/ui: an amount in kopecks, printed by
-- `toFixed(2)` and read again.
use vpnshiki.Text.{decimal_from, is_space, is_digit, trim_start, Text, trim, decimal}
use vpnshiki.Money.{
  fraction, signed, whole, two_digits, cents, number, to_fixed, units, round_cents, Decimal,
}
use vpnshiki.Prelude.{
  Option, none, zero, inl, inr, some, ◌/◌, ◌%◌, ◌-◌, ◌≤◌, ltb, ap, sym, ◌∙◌, Bool-cases, ℕ, Bool,
  ◌<◌, ◌+◌, ◌≡◌, [], false, ◌∷◌, arith, true, ◌++◌, suc, ◌*◌, refl, subst,
}
use mathlib.Core.List.{append_assoc, reverse, reverse-reverse, reverse-append}
use vpnshiki.Prelude.Int.{ℤ, pos, negsuc, neg}

is_space-digit : (d : ℕ) → d < 10 → is_space (b'0' + d) ≡ false
unfolding is_space
is_space-digit d h = ground (arith, h)

signed-digit :
    (d : ℕ) (rest : Text)
    → d < 10
    → signed ((b'0' + d) ∷ rest) ≡ whole false false 0 ((b'0' + d) ∷ rest)
unfolding signed
signed-digit d rest h = ground (arith, h)

whole-digit :
    (seen negative : Bool) (n d : ℕ) (rest : Text)
    → d < 10
    → whole seen negative n ((b'0' + d) ∷ rest) ≡ whole true negative (n * 10 + d) rest
unfolding whole
whole-digit seen negative n d rest h =
    let value : b'0' + d - b'0' ≡ d = omega arith in
    let digit : is_digit (b'0' + d) ≡ true = ground (arith, h) in rw digit (rw value refl)

fraction-digit :
    (seen negative : Bool) (n places d : ℕ) (rest : Text)
    → d < 10
    → fraction seen negative n places ((b'0' + d) ∷ rest)
      ≡ fraction true negative (n * 10 + d) (places + 1) rest
unfolding fraction
fraction-digit seen negative n places d rest h =
    let value : b'0' + d - b'0' ≡ d = omega arith in
    let digit : is_digit (b'0' + d) ≡ true = ground (arith, h) in rw digit (rw value refl)

-- The digits come before what follows them.
decimal_from-append : (f n : ℕ) (rest : Text) → decimal_from f n rest ≡ decimal_from f n [] ++ rest
unfolding decimal_from
decimal_from-append zero n rest = refl
decimal_from-append (suc f) n rest = elim (Bool-cases (ltb n 10)) [
  | inl small ↦ rw small refl
  | inr large ↦ rw large (
      decimal_from-append f (n / 10) ((b'0' + n % 10) ∷ rest)
      ∙ sym (
          ap (λ s. s ++ rest) (decimal_from-append f (n / 10) ((b'0' + n % 10) ∷ []))
          ∙ append_assoc (decimal_from f (n / 10) []) ((b'0' + n % 10) ∷ []) rest))
]

trim_start-decimal_from :
    (f n : ℕ) (rest : Text) → trim_start (decimal_from f n rest) ≡ decimal_from f n rest
unfolding decimal_from trim_start
trim_start-decimal_from zero n rest = rw (is_space-digit (n % 10) (omega arith)) refl
trim_start-decimal_from (suc f) n rest = elim (Bool-cases (ltb n 10)) [
  | inl small ↦ rw small (rw (is_space-digit n (ground (arith, small))) refl)
  | inr large ↦ rw large (trim_start-decimal_from f (n / 10) ((b'0' + n % 10) ∷ rest))
]

signed-decimal_from :
    (f n : ℕ) (rest : Text)
    → signed (decimal_from f n rest) ≡ whole false false 0 (decimal_from f n rest)
unfolding decimal_from
signed-decimal_from zero n rest = signed-digit (n % 10) rest (omega arith)
signed-decimal_from (suc f) n rest = elim (Bool-cases (ltb n 10)) [
  | inl small ↦ rw small (signed-digit n rest (ground (arith, small)))
  | inr large ↦ rw large (signed-decimal_from f (n / 10) ((b'0' + n % 10) ∷ rest))
]

-- Reading the digits of a number gives the number.
whole-decimal_from :
    (seen negative : Bool) (f n : ℕ) (rest : Text)
    → n ≤ f
    → whole seen negative 0 (decimal_from f n rest) ≡ whole true negative n rest
unfolding decimal_from
whole-decimal_from seen negative zero n rest h =
    whole-digit seen negative 0 (n % 10) rest (omega arith)
    ∙ ap (λ m. whole true negative m rest) (omega arith)
whole-decimal_from seen negative (suc f) n rest h = elim (Bool-cases (ltb n 10)) [
  | inl small ↦ rw small (
      whole-digit seen negative 0 n rest (ground (arith, small))
      ∙ ap (λ m. whole true negative m rest) (omega arith))
  | inr large ↦ rw large (
      whole-decimal_from seen negative f (n / 10) ((b'0' + n % 10) ∷ rest) (ground (arith, large))
      ∙ whole-digit true negative (n / 10) (n % 10) rest (omega arith)
      ∙ ap (λ m. whole true negative m rest) (omega arith))
]

fraction-end :
    (negative : Bool) (n m : ℕ)
    → n ≡ m
    → fraction true negative n 2 [] ≡ some record { negative = negative; digits = m; places = 2 }
unfolding fraction
fraction-end negative n m e = rw e refl

fraction-two_digits :
    (seen negative : Bool) (n k : ℕ)
    → k < 100
    → fraction seen negative n 0 (two_digits k)
      ≡ some record { negative = negative; digits = n * 100 + k; places = 2 }
unfolding two_digits
fraction-two_digits seen negative n k h =
    fraction-digit seen negative n 0 (k / 10) ((b'0' + k % 10) ∷ []) (omega arith)
    ∙ fraction-digit true negative (n * 10 + k / 10) 1 (k % 10) [] (omega arith)
    ∙ fraction-end negative _ _ (omega arith)

trim_of_ends : (s : Text) → trim_start s ≡ s → trim_start (reverse s) ≡ reverse s → trim s ≡ s
unfolding trim
trim_of_ends s first last = rw (first, last) (reverse-reverse s)

-- A text that ends in a digit ends in no space.
trim_start-reverse :
    (s : Text) (a b d : ℕ)
    → d < 10
    → trim_start (reverse (s ++ a ∷ b ∷ (b'0' + d) ∷ [])) ≡ reverse (s ++ a ∷ b ∷ (b'0' + d) ∷ [])
unfolding trim_start
trim_start-reverse s a b d h =
    subst (λ t. trim_start t ≡ t) (sym (reverse-append s (a ∷ b ∷ (b'0' + d) ∷ [])))
      (rw (is_space-digit d h) refl)

-- The digits of the roubles, the point and the two digits of the kopecks.
printed : ℕ → Text
unfolding two_digits decimal_from
printed n = decimal_from (n / 100) (n / 100) (b'.' ∷ two_digits (n % 100))

units-eq-printed : (n : ℕ) → units n ≡ printed n
unfolding printed decimal
units-eq-printed n = sym (decimal_from-append (n / 100) (n / 100) (b'.' ∷ two_digits (n % 100)))

trim-printed : (n : ℕ) → trim (printed n) ≡ printed n
unfolding printed two_digits
trim-printed n = trim_of_ends (printed n) (trim_start-decimal_from (n / 100) (n / 100) _) (
    subst (λ t. trim_start (reverse t) ≡ reverse t)
      (sym (decimal_from-append (n / 100) (n / 100) _))
      (trim_start-reverse (decimal_from (n / 100) (n / 100) []) b'.' (b'0' + n % 100 / 10)
        (n % 100 % 10) (omega arith)))

trim-minus : (n : ℕ) → trim (b'-' ∷ printed n) ≡ b'-' ∷ printed n
unfolding printed two_digits trim_start
trim-minus n = trim_of_ends (b'-' ∷ printed n) refl (
    subst (λ t. trim_start (reverse (b'-' ∷ t)) ≡ reverse (b'-' ∷ t))
      (sym (decimal_from-append (n / 100) (n / 100) _))
      (trim_start-reverse (b'-' ∷ decimal_from (n / 100) (n / 100) []) b'.' (b'0' + n % 100 / 10)
        (n % 100 % 10) (omega arith)))

-- The number that a printed amount is read as.
whole-printed :
    (negative : Bool) (n : ℕ)
    → whole false negative 0 (printed n)
      ≡ some record { negative = negative; digits = n; places = 2 }
unfolding printed whole
whole-printed negative n =
    whole-decimal_from false negative (n / 100) (n / 100) (b'.' ∷ two_digits (n % 100))
      (omega arith)
    ∙ fraction-two_digits true negative (n / 100) (n % 100) (omega arith)
    ∙ ap (λ m. some record { negative = negative; digits = m; places = 2 }) (omega arith)

number-printed :
    (n : ℕ) → number (printed n) ≡ some record { negative = false; digits = n; places = 2 }
unfolding number printed
number-printed n =
    ap signed (trim-printed n) ∙ signed-decimal_from (n / 100) (n / 100) _ ∙ whole-printed false n

number-minus :
    (n : ℕ) → number (b'-' ∷ printed n) ≡ some record { negative = true; digits = n; places = 2 }
unfolding number signed
number-minus n = ap signed (trim-minus n) ∙ whole-printed true n

round_cents-pos : (n : ℕ) → (2 * (n * 100) + 100) / (2 * 100) ≡ n
round_cents-pos n = omega arith

round_cents-neg : (n : ℕ) → (2 * ((n + 1) * 100) + 100 - 1) / (2 * 100) ≡ n + 1
round_cents-neg n = omega arith

neg-suc : (n : ℕ) → neg (pos (n + 1)) ≡ negsuc n
neg-suc n = ground arith

cents_of_number : (s : Text) (d : Decimal) → number s ≡ some d → cents s ≡ some (round_cents d)
unfolding cents
cents_of_number s d e =
    ap (λ x. elim x as (λ _. Option ℤ) [ none ↦ none | some r ↦ some (round_cents r) ]) e

-- A sum in kopecks that `toFixed(2)` prints, as the total of a month or of all, is read as the same sum, whatever its
-- sign.
pub cents-to_fixed : (z : ℤ) → cents (to_fixed (some z)) ≡ some z
unfolding to_fixed round_cents
cents-to_fixed (pos n) =
    ap cents (units-eq-printed n)
    ∙ cents_of_number (printed n) _ (number-printed n)
    ∙ ap (λ m. some (pos m)) (round_cents-pos n)
cents-to_fixed (negsuc n) =
    ap (λ s. cents (b'-' ∷ s)) (units-eq-printed (n + 1))
    ∙ cents_of_number (b'-' ∷ printed (n + 1)) _ (number-minus (n + 1))
    ∙ ap (λ m. some (neg (pos m))) (round_cents-neg n)
    ∙ ap some (neg-suc n)
