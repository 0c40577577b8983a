-- ===== src/Ui/DataTable/Laws.antt =====
-- What a table shows whatever is clicked.
use mathlib.Core.List.Perm
use text.Mathlib.TextPositions.{eq_refl}
use mathlib.Core.Option.{none, some}
use vpnshiki.Ui.DataTable.{
  DataTableSort, DataTableColumn, DataTableSortDirection, ascending, descending, AriaSort, unsorted,
  directed, active_compare, sorted_rows, toggle_sort, header_direction,
}
use vpnshiki.Prelude.{
  List, Option, Bool, Perm, String, Option-cases, arith, find, ◌≢◌, str_eq, inl, ◌≡◌, inr, some,
  true, ◌⊎◌, eq_iff, false, filter,
}
use Prim.Native.Nat.{Ordering}
use vpnshiki.Prelude.Sorting.{IsConsistent, IsSorted, is_gt, sort-perm, sort-IsSorted, filter-sort}

-- The rows on the page are the rows given, each as often.
pub sorted_rows-perm :
    {Row : Type 0} (columns : List (DataTableColumn Row)) (s : Option DataTableSort)
    (rows : List Row)
    → Perm (sorted_rows columns s rows) rows
unfolding sorted_rows
sorted_rows-perm columns s rows = elim (Option-cases (active_compare columns s)) [
  | inl idle ↦ rw (idle, sorted_rows) (Perm.refl rows)
  | inr (compare, found) ↦ rw (found, sorted_rows) (sort-perm compare rows)
]

directed-IsConsistent :
    {Row : Type 0} (d : DataTableSortDirection) (compare : Row → Row → Ordering)
    → IsConsistent compare
    → IsConsistent (directed d compare)
directed-IsConsistent ascending compare c = c
directed-IsConsistent descending compare c = record {
  flips = λ x y. ground (arith, c.flips x y);
  trans = λ x y z h k. ground (arith, c.flips x y, c.flips y z, c.flips x z, c.trans z y x);
}

directed-ties :
    {Row : Type 0} (d : DataTableSortDirection) (compare : Row → Row → Ordering) (p : Row → Bool)
    → ((x y : Row) → p x ≡ true → p y ≡ true → compare x y ≡ Ordering.eq)
    → (x y : Row) → p x ≡ true
    → p y ≡ true
    → is_gt (directed d compare x y) ≡ false
directed-ties ascending compare p ties x y h k = rw (ties x y h k)
directed-ties descending compare p ties x y h k = rw (ties x y h k)

active_compare_of_find :
    {Row : Type 0} (columns : List (DataTableColumn Row)) (s : DataTableSort)
    (column : DataTableColumn Row) (compare : Row → Row → Ordering)
    → find (λ c. str_eq c.id s.column_id) columns ≡ some column
    → column.compare ≡ some compare
    → active_compare columns (some s) ≡ some (directed s.direction compare)
unfolding active_compare
active_compare_of_find columns s column compare found comparable =
    rw (found, active_compare) (rw comparable)

-- With a sort by a column whose comparator is consistent, the rows stand in the order asked for, and
-- rows that the comparator ties, among those picked by any test, keep their order.
pub sorted_rows-IsSorted :
    {Row : Type 0} (columns : List (DataTableColumn Row)) (s : DataTableSort)
    (column : DataTableColumn Row) (compare : Row → Row → Ordering) (rows : List Row)
    (p : Row → Bool)
    → find (λ c. str_eq c.id s.column_id) columns ≡ some column
    → column.compare ≡ some compare
    → IsConsistent compare
    → ((x y : Row) → p x ≡ true → p y ≡ true → compare x y ≡ Ordering.eq)
    → IsSorted (directed s.direction compare) (sorted_rows columns (some s) rows)
      × (filter p (sorted_rows columns (some s) rows) ≡ filter p rows)
unfolding sorted_rows
sorted_rows-IsSorted columns s column compare rows p found comparable c ties =
    rw (active_compare_of_find columns s column compare found comparable, sorted_rows)
      (
        sort-IsSorted (directed s.direction compare) (directed-IsConsistent s.direction compare c)
            rows,
        filter-sort (directed s.direction compare) p (directed-ties s.direction compare p ties)
            rows,
      )

-- Clicks on one heading go through descending, ascending and unsorted; the first click on another
-- column sorts by that one, descending.
pub toggle_sort-cycle :
    (s : Option DataTableSort) (c : String)
    → let first = header_direction (toggle_sort s c) c in
      let second = header_direction (toggle_sort (toggle_sort s c) c) c in
      let third = header_direction (toggle_sort (toggle_sort (toggle_sort s c) c) c) c in
      ((header_direction s c ≡ unsorted
          → (first ≡ AriaSort.descending) × (second ≡ AriaSort.ascending) × (third ≡ unsorted))
        × (header_direction s c ≡ AriaSort.descending
            → (first ≡ AriaSort.ascending) × (second ≡ unsorted) × (third ≡ AriaSort.descending))
        × (header_direction s c ≡ AriaSort.ascending
            → (first ≡ unsorted) × (second ≡ AriaSort.descending) × (third ≡ AriaSort.ascending)))
unfolding toggle_sort header_direction
toggle_sort-cycle none c = ground (arith, eq_refl c)
toggle_sort-cycle (some s) c = ground (arith, eq_refl c)

-- At most one heading shows a direction.
pub header_direction_unique :
    (s : Option DataTableSort) (c d : String)
    → c ≢ d
    → (header_direction s c ≡ unsorted) ⊎ (header_direction s d ≡ unsorted)
unfolding header_direction
header_direction_unique none c d h = inl (λ i. unsorted)
header_direction_unique (some s) c d h = ground (arith, eq_iff s.column_id c, eq_iff s.column_id d)
