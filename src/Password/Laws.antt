-- ===== src/Password/Laws.antt =====
-- What every generated password has, whatever the random source gives.
use vpnshiki.Password.{
  all_characters, char_at, swapped, swap, random_index, fill, shuffle, generate_password,
  one_of_each, lowercase, uppercase, digits, symbols,
}
use vpnshiki.Prelude.{
  ℕ, none, some, [], ◌∷◌, zero, suc, true, false, inl, inr, refl, Bool, List, Option, get_elem?,
  length, ◌++◌, ◌+◌, ◌<◌, ◌==◌, ◌≡◌, ◌≤◌, arith, ◌||◌, ◌∙◌, Bool-cases, length-append, set, ltb, ap,
  ltb→lt, sym, ◌-◌,
}
use vpnshiki.Text.{Text}
use Prim.Native.Nat.{max}

abbrev bit : Bool → ℕ
bit true = 1
bit false = 0

-- How many elements pass a test.
abbrev pub count : (ℕ → Bool) → List ℕ → ℕ
count p [] = 0
count p (x ∷ xs) = bit (p x) + count p xs

abbrev pub contains : Text → ℕ → Bool
contains [] c = false
contains (x ∷ s) c = x == c || contains s c

count-append : (p : ℕ → Bool) (xs ys : List ℕ) → count p (xs ++ ys) ≡ count p xs + count p ys
count-append p [] ys = omega arith
count-append p (x ∷ xs) ys = omega (arith, count-append p xs ys)

count-set :
    (p : ℕ → Bool) (xs : List ℕ) (i v old : ℕ)
    → get_elem? xs i ≡ some old
    → count p (set xs i v) + bit (p old) ≡ count p xs + bit (p v)
count-set p [] i v old h = cc
count-set p (x ∷ xs) zero v old h = ground arith
count-set p (x ∷ xs) (suc i) v old h = omega (arith, count-set p xs i v old h)

get_elem?-set_same :
    (xs : List ℕ) (i j b : ℕ) → get_elem? xs j ≡ some b → get_elem? (set xs i b) j ≡ some b
get_elem?-set_same [] i j b h = h
get_elem?-set_same (x ∷ xs) zero zero b h = refl
get_elem?-set_same (x ∷ xs) zero (suc j) b h = h
get_elem?-set_same (x ∷ xs) (suc i) zero b h = h
get_elem?-set_same (x ∷ xs) (suc i) (suc j) b h = get_elem?-set_same xs i j b h

count-swapped :
    (p : ℕ → Bool) (xs : List ℕ) (i j : ℕ) (a b : Option ℕ)
    → get_elem? xs i ≡ a
    → get_elem? xs j ≡ b
    → count p (swapped xs i j a b) ≡ count p xs
count-swapped p xs i j (some a) (some b) h k =
    omega (
      arith,
      count-set p xs i b a h,
      count-set p (set xs i b) j a b (get_elem?-set_same xs i j b k),
    )
count-swapped p xs i j (some a) none h k = refl
count-swapped p xs i j none b h k = refl

count-swap : (p : ℕ → Bool) (xs : List ℕ) (i j : ℕ) → count p (swap xs i j) ≡ count p xs
unfolding swap
count-swap p xs i j = count-swapped p xs i j _ _ refl refl

length-eq-count : (xs : List ℕ) → length xs ≡ count (λ _. true) xs
length-eq-count [] = refl
length-eq-count (x ∷ xs) = omega (arith, length-eq-count xs)

contains-char_at : (s : Text) (i : ℕ) → i < length s → contains s (char_at s i) ≡ true
contains-char_at [] i h = absurd (omega arith)
contains-char_at (c ∷ s) zero h = ground arith
contains-char_at (c ∷ s) (suc i) h = ground (arith, contains-char_at s i (omega arith))

contains-append : (s t : Text) (c : ℕ) → contains (s ++ t) c ≡ contains s c || contains t c
contains-append [] t c = refl
contains-append (x ∷ s) t c = ground (arith, contains-append s t c)

module _ (draws : ℕ → ℕ) where
  count-shuffle :
      (p : ℕ → Bool) (index k : ℕ) (password : List ℕ)
      → count p (shuffle draws index k password) ≡ count p password
  unfolding shuffle
  count-shuffle p zero k password = refl
  count-shuffle p (suc index) k password =
      count-shuffle p index (suc k)
        (swap password (suc index) (random_index draws k (suc index + 1)))
      ∙ count-swap p password (suc index) (random_index draws k (suc index + 1))

  -- What is counted before the loop is still there after it.
  count-fill-le :
      (p : ℕ → Bool) (fuel target k : ℕ) (password : List ℕ)
      → count p password ≤ count p (fill draws fuel target k password).0
  unfolding fill
  count-fill-le p zero target k password = omega arith
  count-fill-le p (suc fuel) target k password =
      let c = char_at all_characters (random_index draws k (length all_characters)) in
      elim (Bool-cases (ltb (length password) target)) [
        | inl short ↦ rw short (
            omega (
              arith,
              count-append p password (c ∷ []),
              count-fill-le p fuel target (suc k) (password ++ c ∷ []),
            ))
        | inr done ↦ rw done (omega arith)
      ]

  length-fill :
      (fuel target k : ℕ) (password : List ℕ)
      → length password ≤ target
      → target ≤ length password + fuel
      → length (fill draws fuel target k password).0 ≡ target
  unfolding fill
  length-fill zero target k password h g = omega arith
  length-fill (suc fuel) target k password h g =
      let c = char_at all_characters (random_index draws k (length all_characters)) in
      let longer = length-append password (c ∷ []) in
      elim (Bool-cases (ltb (length password) target)) [
        | inl short ↦
            let room = ltb→lt (length password) target short in
            rw short (
              length-fill fuel target (suc k) (password ++ c ∷ []) (omega (arith, longer))
                (omega (arith, longer)))
        | inr done ↦ rw done (ground arith)
      ]

  random_index-lt : (k bound : ℕ) → 0 < bound → random_index draws k bound < bound
  unfolding random_index
  random_index-lt k bound h = omega arith

  -- The loop appends characters of the set only.
  fill-known :
      (fuel target k : ℕ) (password : List ℕ)
      → count (contains all_characters) password ≡ length password
      → count (contains all_characters) (fill draws fuel target k password).0
        ≡ length (fill draws fuel target k password).0
  unfolding fill
  fill-known zero target k password h = h
  fill-known (suc fuel) target k password h =
      let i = random_index draws k (length all_characters) in
      let c = char_at all_characters i in
      elim (Bool-cases (ltb (length password) target)) [
        | inl short ↦ rw short (
            fill-known fuel target (suc k) (password ++ c ∷ []) (
              omega (
                arith,
                h,
                length-append password (c ∷ []),
                count-append (contains all_characters) password (c ∷ []),
                ap bit (
                    contains-char_at all_characters i
                      (random_index-lt k (length all_characters) (omega arith))),
              )))
        | inr done ↦ rw done h
      ]

  picked :
      (k : ℕ) (group : Text)
      → 0 < length group
      → contains group (char_at group (random_index draws k (length group))) ≡ true
  picked k group h = contains-char_at group _ (random_index-lt k (length group) h)

contains-left : (s t : Text) (c : ℕ) → contains s c ≡ true → contains (s ++ t) c ≡ true
contains-left s t c h = rw (contains-append s t c, h) refl

contains-right : (s t : Text) (c : ℕ) → contains t c ≡ true → contains (s ++ t) c ≡ true
contains-right s t c h = ground (arith, contains-append s t c)

count_of_all :
    (p : ℕ → Bool) (one two three four : ℕ)
    → p one ≡ true
    → p two ≡ true
    → p three ≡ true
    → p four ≡ true
    → count p (one ∷ two ∷ three ∷ four ∷ []) ≡ 4
count_of_all p one two three four h1 h2 h3 h4 = rw (h1, h2, h3, h4) (omega arith)

four_known :
    (one two three four : ℕ)
    → contains lowercase one ≡ true
    → contains uppercase two ≡ true
    → contains digits three ≡ true
    → contains symbols four ≡ true
    → count (contains all_characters) (one ∷ two ∷ three ∷ four ∷ []) ≡ 4
four_known one two three four h1 h2 h3 h4 =
    count_of_all (contains all_characters) one two three four
      (contains-left lowercase (uppercase ++ digits ++ symbols) one h1)
      (contains-right lowercase (uppercase ++ digits ++ symbols) two
        (contains-left uppercase (digits ++ symbols) two h2))
      (contains-right lowercase (uppercase ++ digits ++ symbols) three (
        contains-right uppercase (digits ++ symbols) three (contains-left digits symbols three h3)))
      (contains-right lowercase (uppercase ++ digits ++ symbols) four
        (contains-right uppercase (digits ++ symbols) four (contains-right digits symbols four h4)))

module _ (draws : ℕ → ℕ) where
  one_of_each-known : count (contains all_characters) (one_of_each draws) ≡ 4
  one_of_each-known =
      let one = char_at lowercase (random_index draws 0 (length lowercase)) in
      let two = char_at uppercase (random_index draws 1 (length uppercase)) in
      let three = char_at digits (random_index draws 2 (length digits)) in
      let four = char_at symbols (random_index draws 3 (length symbols)) in
      four_known one two three four (picked draws 0 lowercase (omega arith))
        (picked draws 1 uppercase (omega arith)) (picked draws 2 digits (omega arith))
        (picked draws 3 symbols (omega arith))

  filled : ℕ → List ℕ × ℕ
  filled n = fill draws (max n 4) (max n 4) 4 (one_of_each draws)

  length-filled : (n : ℕ) → length (filled n).0 ≡ max n 4
  unfolding filled
  length-filled n =
      length-fill draws (max n 4) (max n 4) 4 (one_of_each draws) (omega arith) (omega arith)

  known-filled : (n : ℕ) → count (contains all_characters) (filled n).0 ≡ length (filled n).0
  unfolding filled
  known-filled n = fill-known draws (max n 4) (max n 4) 4 (one_of_each draws) one_of_each-known

  count-generate_password :
      (p : ℕ → Bool) (n : ℕ) → count p (generate_password draws n) ≡ count p (filled n).0
  unfolding generate_password filled
  count-generate_password p n =
      count-shuffle draws p (length (filled n).0 - 1) (filled n).1 (filled n).0

  length-generate_password : (n : ℕ) → length (generate_password draws n) ≡ max n 4
  length-generate_password n =
      length-eq-count (generate_password draws n)
      ∙ count-generate_password (λ _. true) n
      ∙ sym (length-eq-count (filled n).0)
      ∙ length-filled n

  known-generate_password :
      (n : ℕ)
      → count (contains all_characters) (generate_password draws n)
        ≡ length (generate_password draws n)
  known-generate_password n =
      count-generate_password (contains all_characters) n
      ∙ known-filled n
      ∙ length-filled n
      ∙ sym (length-generate_password n)

  has_of_picked :
      (p : ℕ → Bool) (n : ℕ)
      → 1 ≤ count p (one_of_each draws)
      → 1 ≤ count p (generate_password draws n)
  unfolding filled
  has_of_picked p n h = omega (
    arith,
    h,
    count-generate_password p n,
    count-fill-le draws p (max n 4) (max n 4) 4 (one_of_each draws),
  )

-- A password of length n has max(n, 4) characters, one at least from each of the four groups and
-- none from elsewhere, whatever the random source gives.
pub generate_password-is_strong :
    (draws : ℕ → ℕ) (n : ℕ)
    → let password = generate_password draws n in
      (length password ≡ max n 4)
      × (1 ≤ count (contains lowercase) password)
      × (1 ≤ count (contains uppercase) password)
      × (1 ≤ count (contains digits) password)
      × (1 ≤ count (contains symbols) password)
      × (count (contains all_characters) password ≡ length password)
generate_password-is_strong draws n = (
  length-generate_password draws n,
  has_of_picked draws (contains lowercase) n
      (omega (arith, ap bit (picked draws 0 lowercase (omega arith)))),
  has_of_picked draws (contains uppercase) n
      (omega (arith, ap bit (picked draws 1 uppercase (omega arith)))),
  has_of_picked draws (contains digits) n
      (omega (arith, ap bit (picked draws 2 digits (omega arith)))),
  has_of_picked draws (contains symbols) n
      (omega (arith, ap bit (picked draws 3 symbols (omega arith)))),
  known-generate_password draws n,
)
