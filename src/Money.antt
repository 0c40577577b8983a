-- ===== src/Money.antt =====
-- frontend/src/shared/lib/money/money.ts, and the arithmetic of kopecks in the history windows.
-- `Number(text)` is read as an exact decimal: a sign, digits, a fraction and an exponent, with white
-- space around and nothing for 0. A hexadecimal, octal, binary or infinite literal, which neither an amount
-- of the server nor a field of the type `number` holds, is taken for NaN; binary rounding, which two
-- decimals below 2 ^ 46 roubles never show after `Math.round(… * 100)`, is left out.
pub mod Printed
use vpnshiki.Prelude.{
  ℕ, ◌+◌, ◌-◌, ◌*◌, ◌/◌, ◌%◌, ◌^◌, ◌≡◌, refl, Bool, true, false, ◌&&◌, ◌||◌, not, Option, none,
  some, [], ◌∷◌, ◌++◌, ◌==◌, if◌then◌else◌,
}
use vpnshiki.Prelude.Int.{ℤ, pos, negsuc, ◌+ℤ◌, +ℤ_comm, +ℤ_assoc, zero-+ℤ, neg}
use vpnshiki.Text.{Text, codes, is_digit, trim, decimal}

-- `digits / 10 ^ places`, with a sign.
pub record Decimal : Type 0 where
  pub negative : Bool
  pub digits : ℕ
  pub places : ℕ

abbrev finish : Bool → Bool → ℕ → ℕ → Option Decimal
finish true negative digits places =
    some (record { negative = negative; digits = digits; places = places })
finish false negative digits places = none

-- Times a power of ten, or a negative one.
abbrev scaled : Bool → ℕ → Decimal → Decimal
scaled true exponent d = record d { places = d.places + exponent }
scaled false exponent d = record d { digits = d.digits * 10 ^ exponent }

abbrev scale_if : Bool → Bool → ℕ → Option Decimal → Option Decimal
scale_if true small exponent (some d) = some (scaled small exponent d)
scale_if _ _ _ _ = none

-- The digits after an `e` and its sign.
unfoldable pub exponent_digits : Bool → Bool → ℕ → Option Decimal → Text → Option Decimal
exponent_digits seen small n d [] = scale_if seen small n d
exponent_digits seen small n d (c ∷ s) =
    let rest = exponent_digits true small (n * 10 + (c - b'0')) d s in
    if is_digit c then rest else none

unfoldable pub exponent : Option Decimal → Text → Option Decimal
unfolding exponent_digits
exponent d [] = none
exponent d (c ∷ s) =
    if c == b'-'
    then exponent_digits false true 0 d s
    else if c == b'+'
    then exponent_digits false false 0 d s
    else exponent_digits false false 0 d (c ∷ s)

abbrev is_exponent_mark : ℕ → Bool
is_exponent_mark c = c == b'e' || c == b'E'

unfoldable pub fraction : Bool → Bool → ℕ → ℕ → Text → Option Decimal
unfolding exponent
fraction seen negative n places [] = finish seen negative n places
fraction seen negative n places (c ∷ s) =
    let rest = fraction true negative (n * 10 + (c - b'0')) (places + 1) s in
    if is_digit c
    then rest
    else if is_exponent_mark c
    then exponent (finish seen negative n places) s
    else none

unfoldable pub whole : Bool → Bool → ℕ → Text → Option Decimal
unfolding fraction exponent
whole seen negative n [] = finish seen negative n 0
whole seen negative n (c ∷ s) =
    let rest = whole true negative (n * 10 + (c - b'0')) s in
    if is_digit c
    then rest
    else if c == b'.'
    then fraction seen negative n 0 s
    else if is_exponent_mark c
    then exponent (finish seen negative n 0) s
    else none

unfoldable pub signed : Text → Option Decimal
unfolding whole
signed [] = some (record { negative = false; digits = 0; places = 0 })
signed (c ∷ s) =
    if c == b'-'
    then whole false true 0 s
    else if c == b'+'
    then whole false false 0 s
    else whole false false 0 (c ∷ s)

-- `Number(value)`; `none` is NaN.
unfoldable pub number : Text → Option Decimal
unfolding signed trim
number s = signed (trim s)

-- `amount * sign`, rounded half up to kopecks: `Math.round(amount * 100)`.
unfoldable pub round_cents : Decimal → ℤ
round_cents d =
    let scale = 10 ^ d.places in
    if d.negative
    then neg (pos ((2 * (d.digits * 100) + scale - 1) / (2 * scale)))
    else pos ((2 * (d.digits * 100) + scale) / (2 * scale))

-- `Math.round(Number(amount) * 100)`
unfoldable pub cents : Text → Option ℤ
unfolding number round_cents
cents amount = elim (number amount) [ none ↦ none | some d ↦ some (round_cents d) ]

-- `+` on numbers: a NaN stays NaN.
infixl 65 ◌+?◌
abbrev pub ◌+?◌ : Option ℤ → Option ℤ → Option ℤ
none +? y = none
some a +? none = none
some a +? some b = some (a +ℤ b)

pub +?_assoc : (x y z : Option ℤ) → x +? y +? z ≡ x +? (y +? z)
+?_assoc none y z = refl
+?_assoc (some a) none z = refl
+?_assoc (some a) (some b) none = refl
+?_assoc (some a) (some b) (some c) = rw (+ℤ_assoc a b c)

pub +?_comm : (x y : Option ℤ) → x +? y ≡ y +? x
+?_comm none none = refl
+?_comm none (some b) = refl
+?_comm (some a) none = refl
+?_comm (some a) (some b) = rw (+ℤ_comm a b)

pub zero-+? : (x : Option ℤ) → some (pos 0) +? x ≡ x
zero-+? none = refl
zero-+? (some a) = rw (zero-+ℤ a)

unfoldable pub two_digits : ℕ → Text
two_digits n = (b'0' + n / 10) ∷ (b'0' + n % 10) ∷ []

abbrev units : ℕ → Text
units n = decimal (n / 100) ++ b'.' ∷ two_digits (n % 100)

-- `(total / 100).toFixed(2)`
unfoldable pub to_fixed : Option ℤ → Text
unfolding two_digits decimal
to_fixed none = codes "NaN"
to_fixed (some (pos n)) = units n
to_fixed (some (negsuc n)) = b'-' ∷ units (n + 1)

-- `Intl.NumberFormat('ru-RU', …).format` is the parameter `currency`.
unfoldable pub format_money : (Decimal → Text) → Text → Text
unfolding number
format_money currency value = elim (number value) [ none ↦ codes "—" | some d ↦ currency d ]

unfoldable pub is_negative_money : Text → Bool
unfolding number
is_negative_money value = elim (number value) [
  | none ↦ false
  | some d ↦ d.negative && not (d.digits == 0)
]
