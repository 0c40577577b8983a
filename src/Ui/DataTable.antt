-- ===== src/Ui/DataTable.antt =====
-- frontend/src/shared/ui/DataTable/DataTable.tsx: a table sorted by the column that was clicked.
-- A comparator's number is read by its sign, as the sort reads it.
pub mod Laws
pub mod Headers
use Prim.Native.Nat.{Ordering}
use vpnshiki.Prelude.{
  ◌≡◌, Bool, true, false, String, Option, none, some, List, Perm, str_eq, eq_iff, find,
  if◌then◌else◌, arith,
}
use vpnshiki.Prelude.Sorting.{sort, flip, is_gt}

pub data DataTableSortDirection : Type 0 where
  ascending descending : DataTableSortDirection

pub record DataTableSort : Type 0 where
  pub column_id : String
  pub direction : DataTableSortDirection

-- What sorting reads of a column.
pub record DataTableColumn (Row : Type 0) : Type 0 where
  pub id : String
  pub compare : Option (Row → Row → Ordering)

abbrev pub directed {ℓ} :
    {Row : Type ℓ} → DataTableSortDirection → (Row → Row → Ordering) → Row → Row → Ordering
directed ascending compare left right = compare left right
directed descending compare left right = flip (compare left right)

abbrev column_compare :
    {Row : Type 0} → Option (DataTableColumn Row) → Option (Row → Row → Ordering)
column_compare none = none
column_compare (some column) = column.compare

-- The comparator in force, if any.
unfoldable pub active_compare :
    {Row : Type 0}
    → List (DataTableColumn Row)
    → Option DataTableSort
    → Option (Row → Row → Ordering)
active_compare columns none = none
active_compare columns (some s) =
    elim (column_compare (find (λ c. str_eq c.id s.column_id) columns)) [
      | none ↦ none
      | some compare ↦ some (directed s.direction compare)
    ]

abbrev sort_by : {Row : Type 0} → Option (Row → Row → Ordering) → List Row → List Row
sort_by none rows = rows
sort_by (some compare) rows = sort compare rows

unfoldable pub sorted_rows :
    {Row : Type 0} → List (DataTableColumn Row) → Option DataTableSort → List Row → List Row
unfolding active_compare sort
sorted_rows columns s rows = sort_by (active_compare columns s) rows

abbrev toggled : DataTableSortDirection → String → Option DataTableSort
toggled descending column_id = some (record { column_id = column_id; direction = ascending })
toggled ascending column_id = none

-- A click on the heading of a column.
unfoldable pub toggle_sort : Option DataTableSort → String → Option DataTableSort
toggle_sort none column_id = some (record { column_id = column_id; direction = descending })
toggle_sort (some current) column_id =
    if str_eq current.column_id column_id
    then toggled current.direction column_id
    else some (record { column_id = column_id; direction = descending })

pub data AriaSort : Type 0 where
  unsorted ascending descending : AriaSort

abbrev aria : DataTableSortDirection → AriaSort
aria ascending = AriaSort.ascending
aria descending = AriaSort.descending

-- `aria-sort` of the heading of a column that can be sorted.
unfoldable pub header_direction : Option DataTableSort → String → AriaSort
header_direction none column_id = unsorted
header_direction (some s) column_id =
    if str_eq s.column_id column_id then aria s.direction else unsorted
