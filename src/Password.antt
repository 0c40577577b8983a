-- ===== src/Password.antt =====
-- frontend/src/shared/lib/password/generatePassword.ts. The random source is a parameter: `draws k` is
-- the number of 32 bits that the k-th call of `crypto.getRandomValues` writes.
pub mod Laws
use vpnshiki.Prelude.{
  ℕ, none, some, [], ◌∷◌, zero, suc, true, false, List, ◌%◌, Option, get_elem?, length, ◌++◌, ◌+◌,
  if◌then◌else◌, ltb, set, ◌-◌,
}
use vpnshiki.Text.{Text, codes}
use Prim.Native.Nat.{max}

abbrev pub lowercase : Text
lowercase = codes "abcdefghijkmnopqrstuvwxyz"

abbrev pub uppercase : Text
uppercase = codes "ABCDEFGHJKLMNPQRSTUVWXYZ"

abbrev pub digits : Text
digits = codes "23456789"

abbrev pub symbols : Text
symbols = codes "!@#$%&*+-=?"

abbrev pub all_characters : Text
all_characters = lowercase ++ uppercase ++ digits ++ symbols

-- `text[index]`; every index that the code computes is below the length.
abbrev pub char_at : Text → ℕ → ℕ
char_at [] i = 0
char_at (c ∷ s) zero = c
char_at (c ∷ s) (suc i) = char_at s i

-- `[p[i], p[j]] = [p[j], p[i]]`
abbrev pub swapped : List ℕ → ℕ → ℕ → Option ℕ → Option ℕ → List ℕ
swapped xs i j (some a) (some b) = set (set xs i b) j a
swapped xs i j _ _ = xs

unfoldable pub swap : List ℕ → ℕ → ℕ → List ℕ
swap xs i j = swapped xs i j (get_elem? xs i) (get_elem? xs j)

module _ (draws : ℕ → ℕ) where
  -- `randomIndex(max)` at the k-th draw.
  unfoldable pub random_index : ℕ → ℕ → ℕ
  random_index k bound = draws k % bound

  -- One character from each group.
  abbrev one_of_each : List ℕ
  one_of_each =
      char_at lowercase (random_index 0 (length lowercase))
      ∷ char_at uppercase (random_index 1 (length uppercase))
      ∷ char_at digits (random_index 2 (length digits))
      ∷ char_at symbols (random_index 3 (length symbols))
      ∷ []

  -- The `while` loop: each round appends a character, so `target` rounds are enough.
  unfoldable pub fill : ℕ → ℕ → ℕ → List ℕ → List ℕ × ℕ
  unfolding random_index
  fill zero target k password = (password, k)
  fill (suc fuel) target k password =
      let longer =
        fill fuel target (suc k)
          (password ++ char_at all_characters (random_index k (length all_characters)) ∷ []) in
      if ltb (length password) target then longer else (password, k)

  -- The `for` loop from `index` down to 1.
  unfoldable pub shuffle : ℕ → ℕ → List ℕ → List ℕ
  unfolding random_index swap
  shuffle zero k password = password
  shuffle (suc index) k password =
      shuffle index (suc k) (swap password (suc index) (random_index k (suc index + 1)))

  unfoldable pub generate_password : ℕ → List ℕ
  unfolding fill shuffle
  generate_password n =
      let (password, k) = fill (max n 4) (max n 4) 4 one_of_each in
      shuffle (length password - 1) k password
