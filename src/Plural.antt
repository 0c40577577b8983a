-- ===== src/Plural.antt =====
-- The rule of Russian for a noun after a number, in the words of a grammar: the one that the pages'
-- count labels are held to.
use vpnshiki.Prelude.{ℕ, ◌%◌, ◌&&◌, ◌||◌, not, ◌++◌, ◌∷◌, ◌==◌, if◌then◌else◌}
use vpnshiki.Text.{Text, decimal}

pub data PluralForm : Type 0 where
  one few many : PluralForm

-- 1, 21, 31, … but not 11; 2 to 4, 22 to 24, … but not 12 to 14; the rest.
abbrev pub plural_form : ℕ → PluralForm
plural_form n =
    let ten = n % 10 in
    let hundred = n % 100 in
    if ten == 1 && not (hundred == 11)
    then one
    else if (ten == 2 && not (hundred == 12))
        || (ten == 3 && not (hundred == 13))
        || (ten == 4 && not (hundred == 14))
    then few
    else many

abbrev pub noun : PluralForm → Text → Text → Text → Text
noun one a b c = a
noun few a b c = b
noun many a b c = c

-- The number, a space and the noun in its form.
abbrev pub counted : ℕ → Text → Text → Text → Text
counted n a b c = decimal n ++ b' ' ∷ noun (plural_form n) a b c
