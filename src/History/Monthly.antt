-- ===== src/History/Monthly.antt =====
-- frontend/src/shared/ui/MonthlyHistory/MonthlyHistory.tsx: what it shows, and which month is open.
use vpnshiki.Prelude.{
  ℕ, String, Bool, false, Option, none, some, List, [], ◌∷◌, ◌++◌, str_eq, ◌==◌, ◌&&◌,
  if◌then◌else◌,
}
use mathlib.Core.List.{reverse}
use vpnshiki.Text.{Text, trim_start, is_space}
use vpnshiki.Prelude.{◌≡◌}
use vpnshiki.Prelude.{not}
use vpnshiki.Prelude.{arith}
use vpnshiki.Prelude.{eq_iff}

pub record MonthlyHistoryRow : Type 0 where
  pub id : String
  pub date_time : String
  pub date_label : Text
  pub secondary_description : Option Text
  pub description : Option Text
  pub amount : Text
  pub breakdown_amounts : Option (Text × Text)
  pub total_amount : Option Text

pub record MonthlyHistoryGroup : Type 0 where
  pub key : String
  pub label : Text
  pub count_label : Text
  pub total : Text
  pub rows : List MonthlyHistoryRow

-- `openGroup`: `untouched` is `undefined`, `closed` is `null`.
pub data OpenGroup : Type 0 where
  untouched closed : OpenGroup
  opened : String → OpenGroup

-- `groups[0]?.key`
abbrev pub first_key : List MonthlyHistoryGroup → Option String
first_key [] = none
first_key (g ∷ _) = some g.key

unfoldable pub expanded_group : List MonthlyHistoryGroup → OpenGroup → Option String
expanded_group groups untouched = first_key groups
expanded_group groups closed = none
expanded_group groups (opened key) = some key

abbrev is_key : Option String → String → Bool
is_key none key = false
is_key (some k) key = str_eq k key

unfoldable pub is_expanded : List MonthlyHistoryGroup → OpenGroup → String → Bool
unfolding expanded_group
is_expanded groups state key = is_key (expanded_group groups state) key

-- A click on a month's heading.
unfoldable pub toggle_group : List MonthlyHistoryGroup → OpenGroup → String → OpenGroup
unfolding is_expanded
toggle_group groups state key = if is_expanded groups state key then closed else opened key

-- The rows on the page: those of the expanded months.
unfoldable pub shown_rows :
    List MonthlyHistoryGroup → OpenGroup → List MonthlyHistoryGroup → List MonthlyHistoryRow
unfolding is_expanded
shown_rows groups state [] = []
shown_rows groups state (g ∷ gs) =
    let rest = shown_rows groups state gs in
    if is_expanded groups state g.key then g.rows ++ rest else rest

-- `.replace(/\s+г\.$/, '')`, on the text reversed.
abbrev drop_mark_reversed : Text → Text → Text
drop_mark_reversed s (dot ∷ year ∷ space ∷ rest) =
    if dot == b'.' && year == 0x433 && is_space space then reverse (trim_start rest) else s
drop_mark_reversed s _ = s

unfoldable pub drop_year_mark : Text → Text
unfolding trim_start
drop_year_mark s = drop_mark_reversed s (reverse s)

-- `value.charAt(0).toUpperCase() + value.slice(1)`
abbrev pub capitalize : (ℕ → Text) → Text → Text
capitalize to_upper [] = []
capitalize to_upper (c ∷ s) = to_upper c ++ s

-- A click on a month's heading opens that month if it was closed and closes it if it was open; no
-- other month stays open.
pub is_expanded-toggle_group :
    (groups : List MonthlyHistoryGroup) (state : OpenGroup) (key j : String)
    → is_expanded groups (toggle_group groups state key) j
      ≡ (if str_eq key j then not (is_expanded groups state key) else false)
unfolding toggle_group is_expanded
is_expanded-toggle_group groups state key j = ground (arith, eq_iff key j)
