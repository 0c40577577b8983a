-- ===== src/TariffPlans/Calendar/Printed.antt =====
-- frontend/src/entities/tariffPlan/utils.ts: a date that `addCalendarDays` prints, and reads again.
use vpnshiki.Prelude.{
  ℕ, zero, suc, ◌+◌, ◌-◌, ◌*◌, ◌/◌, ◌%◌, ◌≤◌, ◌<◌, ◌≡◌, true, false, some, [], ◌∷◌, ◌++◌, ltb, ◌==◌,
  Bool-cases, inl, inr, arith, refl, ap, ◌∙◌, sym, All,
}
use mathlib.Core.List.{append_assoc, append-nil, reverse, reverse-append}
use vpnshiki.Text.{Text, decimal, decimal_from, pad_two, is_digit}
use vpnshiki.Prelude.Int.{ℤ, pos_part, neg_part}
use vpnshiki.TariffPlans.Calendar.{
  CalendarDate, split_from, digits_from, parse_date, print_date, add_calendar_days, shift,
  date_parts,
}
use vpnshiki.TariffPlans.Calendar.Laws.{IsValid}
use vpnshiki.TariffPlans.Calendar.DayNumber.{day_number, shift-number}

abbrev HasNoDash : Text → Type 0
HasNoDash s = All (λ c. (c == b'-') ≡ false) s

reverse-append_cons : (c : ℕ) (part s : Text) → reverse (c ∷ part) ++ s ≡ reverse part ++ c ∷ s
reverse-append_cons c part s =
    ap (λ p. p ++ s) (reverse-append (c ∷ []) part) ∙ append_assoc (reverse part) (c ∷ []) s

split_from-dash :
    (part s rest : Text)
    → HasNoDash s
    → split_from part (s ++ b'-' ∷ rest) ≡ (reverse part ++ s) ∷ split_from [] rest
unfolding split_from
split_from-dash part [] rest h = ap (λ p. p ∷ split_from [] rest) (sym (append-nil (reverse part)))
split_from-dash part (c ∷ s) rest (e, h) =
    rw (e, split_from)
      (split_from-dash (c ∷ part) s rest h
        ∙ ap (λ p. p ∷ split_from [] rest) (reverse-append_cons c part s))

split_from-end : (part s : Text) → HasNoDash s → split_from part s ≡ (reverse part ++ s) ∷ []
unfolding split_from
split_from-end part [] h = ap (λ p. p ∷ []) (sym (append-nil (reverse part)))
split_from-end part (c ∷ s) (e, h) =
    rw (e, split_from)
      (split_from-end (c ∷ part) s h ∙ ap (λ p. p ∷ []) (reverse-append_cons c part s))

digits_from-digit :
    (n d : ℕ) (rest : Text)
    → d < 10
    → digits_from n ((b'0' + d) ∷ rest) ≡ digits_from (n * 10 + d) rest
unfolding digits_from
digits_from-digit n d rest h =
    let value : b'0' + d - b'0' ≡ d = omega arith in
    let digit : is_digit (b'0' + d) ≡ true = ground (arith, h) in rw digit (rw value refl)

digits_from-decimal_from :
    (f n : ℕ) (rest : Text) → n ≤ f → digits_from 0 (decimal_from f n rest) ≡ digits_from n rest
unfolding decimal_from
digits_from-decimal_from zero n rest h =
    digits_from-digit 0 (n % 10) rest (omega arith) ∙ ap (λ m. digits_from m rest) (omega arith)
digits_from-decimal_from (suc f) n rest h = elim (Bool-cases (ltb n 10)) [
  | inl small ↦ rw small (
      digits_from-digit 0 n rest (ground (arith, small))
      ∙ ap (λ m. digits_from m rest) (omega arith))
  | inr large ↦ rw large (
      digits_from-decimal_from f (n / 10) ((b'0' + n % 10) ∷ rest) (ground (arith, large))
      ∙ digits_from-digit (n / 10) (n % 10) rest (omega arith)
      ∙ ap (λ m. digits_from m rest) (omega arith))
]

digits_from-end : (n : ℕ) → digits_from n [] ≡ some n
unfolding digits_from
digits_from-end n = refl

digit-no_dash : (d : ℕ) → d < 10 → (b'0' + d == b'-') ≡ false
digit-no_dash d h = ground arith

decimal_from-HasNoDash :
    (f n : ℕ) (rest : Text) → HasNoDash rest → HasNoDash (decimal_from f n rest)
unfolding decimal_from
decimal_from-HasNoDash zero n rest h = (digit-no_dash (n % 10) (omega arith), h)
decimal_from-HasNoDash (suc f) n rest h = elim (Bool-cases (ltb n 10)) [
  | inl small ↦ rw small (digit-no_dash n (ground (arith, small)), h)
  | inr large ↦ rw large (
      decimal_from-HasNoDash f (n / 10) ((b'0' + n % 10) ∷ rest)
        (digit-no_dash (n % 10) (omega arith), h))
]

digits_from-pad_two : (s : Text) → digits_from 0 (pad_two s) ≡ digits_from 0 s
unfolding digits_from pad_two
digits_from-pad_two [] = refl
digits_from-pad_two (c ∷ []) = refl
digits_from-pad_two (c ∷ d ∷ s) = refl

pad_two-HasNoDash : (s : Text) → HasNoDash s → HasNoDash (pad_two s)
unfolding pad_two
pad_two-HasNoDash [] h = (refl, (refl, tt))
pad_two-HasNoDash (c ∷ []) h = (refl, h)
pad_two-HasNoDash (c ∷ d ∷ s) h = h

decimal-HasNoDash : (n : ℕ) → HasNoDash (decimal n)
unfolding decimal
decimal-HasNoDash n = decimal_from-HasNoDash n n [] tt

digits_from-decimal : (n : ℕ) → digits_from 0 (decimal n) ≡ some n
unfolding decimal
digits_from-decimal n = digits_from-decimal_from n n [] (omega arith) ∙ digits_from-end n

parse_date_of_parts :
    (value y m k : Text) (d : CalendarDate)
    → split_from [] value ≡ y ∷ m ∷ k ∷ []
    → digits_from 0 y ≡ some d.year
    → digits_from 0 m ≡ some d.month
    → digits_from 0 k ≡ some d.day
    → parse_date value ≡ some d
unfolding parse_date date_parts
parse_date_of_parts value y m k d e p q r = rw e (rw (p, q, r) refl)

split_from-print_date :
    (d : CalendarDate)
    → split_from [] (print_date d)
      ≡ decimal d.year ∷ pad_two (decimal d.month) ∷ pad_two (decimal d.day) ∷ []
unfolding print_date
split_from-print_date d =
    ap (split_from []) (append_assoc (decimal d.year) (b'-' ∷ pad_two (decimal d.month)) _)
    ∙ split_from-dash [] (decimal d.year) _ (decimal-HasNoDash d.year)
    ∙ ap (λ ps. decimal d.year ∷ ps)
        (split_from-dash [] (pad_two (decimal d.month)) _
            (pad_two-HasNoDash (decimal d.month) (decimal-HasNoDash d.month))
          ∙ ap (λ ps. pad_two (decimal d.month) ∷ ps)
              (split_from-end [] (pad_two (decimal d.day))
                (pad_two-HasNoDash (decimal d.day) (decimal-HasNoDash d.day))))

-- A date that is printed is read as itself.
parse_date-print_date : (d : CalendarDate) → parse_date (print_date d) ≡ some d
parse_date-print_date d =
    parse_date_of_parts (print_date d) _ _ _ d (split_from-print_date d)
      (digits_from-decimal d.year)
      (digits_from-pad_two (decimal d.month) ∙ digits_from-decimal d.month)
      (digits_from-pad_two (decimal d.day) ∙ digits_from-decimal d.day)

-- For a text that reads as a day of the calendar from the year 100 on, the text with a number of days added,
-- or taken off while days of the calendar are left, reads as the day of the calendar whose number, by the closed
-- form of the Gregorian calendar, is greater or smaller by as many.
pub add_calendar_days_lem :
    (value : Text) (d : CalendarDate) (days : ℤ)
    → parse_date value ≡ some d
    → IsValid d
    → 100 ≤ d.year
    → neg_part days < day_number d
    → (e : CalendarDate) × (parse_date (add_calendar_days value days) ≡ some e)
      × IsValid e
      × (day_number e + neg_part days ≡ day_number d + pos_part days)
unfolding add_calendar_days
add_calendar_days_lem value d days reads valid late left =
    let (there, number) = shift-number d days valid late left in
    (
      shift d days,
      rw (reads, add_calendar_days) (parse_date-print_date (shift d days)),
      there,
      number,
    )
