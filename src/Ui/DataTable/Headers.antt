-- ===== src/Ui/DataTable/Headers.antt =====
-- frontend/src/shared/ui/DataTable/DataTable.tsx: the button in the heading of a column that can be sorted.
use vpnshiki.Text.{Text, codes}
use vpnshiki.Ui.DataTable.{
  DataTableSortDirection, AriaSort, header_direction, toggle_sort, DataTableSort,
}
use vpnshiki.Prelude.{
  ◌++◌, str_eq, eq_iff, Bool-cases, inl, inr, refl, some, none, String, Bool, Option, true, false,
  ◌≡◌,
}

abbrev quoted : String → Text → String → Text
quoted before label after = codes before ++ label ++ codes after

-- `actionTitle`
unfoldable pub action_title : (label : Text) → AriaSort → Text
action_title label AriaSort.ascending = quoted "Сбросить сортировку «" label "»"
action_title label AriaSort.descending = quoted "Сортировать «" label "» по возрастанию"
action_title label AriaSort.unsorted = quoted "Сортировать «" label "» по убыванию"

-- The arrows: up and down.
unfoldable pub sort_icons : AriaSort → Bool × Bool
sort_icons AriaSort.ascending = (true, false)
sort_icons AriaSort.descending = (false, true)
sort_icons AriaSort.unsorted = (true, true)

-- What a title announces that ends in the order given.
abbrev announced : (label : Text) → AriaSort → Text
announced label AriaSort.unsorted = quoted "Сбросить сортировку «" label "»"
announced label AriaSort.ascending = quoted "Сортировать «" label "» по возрастанию"
announced label AriaSort.descending = quoted "Сортировать «" label "» по убыванию"

title-toggled :
    (label : Text) (current : DataTableSort) (direction : DataTableSortDirection) (id : String)
    → current.direction ≡ direction
    → str_eq current.column_id id ≡ true
    → action_title label (header_direction (some current) id)
      ≡ announced label (header_direction (toggle_sort (some current) id) id)
unfolding action_title header_direction toggle_sort
title-toggled label current DataTableSortDirection.ascending id d e = rw e (rw d refl)
title-toggled label current DataTableSortDirection.descending id d e =
    rw e (rw d (rw ((eq_iff id id).1 refl) refl))

-- The title of the button announces the order in which its column is after a click, whatever column sorted the
-- table before.
pub action_title-toggle_sort :
    (label : Text) (s : Option DataTableSort) (id : String)
    → action_title label (header_direction s id)
      ≡ announced label (header_direction (toggle_sort s id) id)
unfolding action_title header_direction toggle_sort
action_title-toggle_sort label none id = rw ((eq_iff id id).1 refl) refl
action_title-toggle_sort label (some current) id = elim (Bool-cases (str_eq current.column_id id)) [
  | inl same ↦ title-toggled label current current.direction id refl same
  | inr other ↦ rw other (rw ((eq_iff id id).1 refl) refl)
]
