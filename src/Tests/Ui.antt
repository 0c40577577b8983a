-- ===== src/Tests/Ui.antt =====
-- Tables and lists of options.
use Prim.Native.Nat.{compare, Ordering}
use vpnshiki.Ui.FieldSelect.{
  next_position, down, Event, FieldSelectOption, enter, arrow, changed, blurred,
}
use vpnshiki.Ui.FieldSelect
use vpnshiki.Prelude.{
  ℕ, none, some, [], ◌∷◌, true, false, refl, All, Bool, List, String, ◌≡◌, ◌≢◌, arith, ◌==◌, filter,
  eq_iff, ◌≤◌, ◌+◌, ◌*◌,
}
use vpnshiki.Ui.DataTable.{DataTableColumn, DataTableSort, sorted_rows, descending, directed}
use vpnshiki.Prelude.Sorting.{IsConsistent, IsSorted}
use vpnshiki.Ui.FieldSelect.Laws.{IsSafe, run-initial-IsSafe}
use vpnshiki.Ui.FieldSelect.Offers.{IsOffered, run-IsOffered}
use vpnshiki.Ui.DataTable.Laws.{sorted_rows-IsSorted}
use vpnshiki.Text.{codes}
use vpnshiki.Ui.FieldSelect.Place.{
  ControlRect, WindowSize, popup_position, viewport_gap, popup_max_height, popup_gap, smaller,
  estimated_height, popup_position_lem,
}
use vpnshiki.Ui.FieldSelect.Reach.{IsKey, run-reaches}

abbrev by_size : ℕ → ℕ → Ordering
by_size x y = compare x y

abbrev size : DataTableColumn ℕ
size = record { id = "size"; compare = some by_size }

abbrev columns : List (DataTableColumn ℕ)
columns = record { id = "name"; compare = none } ∷ size ∷ []

abbrev by_size_down : DataTableSort
by_size_down = record { column_id = "size"; direction = descending }

by_size-IsConsistent : IsConsistent by_size
by_size-IsConsistent = record { flips = λ x y. ground arith; trans = λ x y z h k. ground arith }

sorted : sorted_rows columns (some by_size_down) (3 ∷ 10 ∷ 7 ∷ []) ≡ 10 ∷ 7 ∷ 3 ∷ []
unfolding sorted_rows
sorted = refl

is_seven : ℕ → Bool
is_seven n = n == 7

sevens-tie : (x y : ℕ) → is_seven x ≡ true → is_seven y ≡ true → by_size x y ≡ Ordering.eq
unfolding is_seven
sevens-tie x y h k = ground arith

sorted_rows-IsSorted_example :
    IsSorted
      (directed descending by_size)
      (sorted_rows columns (some by_size_down) (3 ∷ 7 ∷ 7 ∷ []))
    × (filter is_seven (sorted_rows columns (some by_size_down) (3 ∷ 7 ∷ 7 ∷ []))
        ≡ filter is_seven (3 ∷ 7 ∷ 7 ∷ []))
sorted_rows-IsSorted_example =
    sorted_rows-IsSorted columns by_size_down size by_size (3 ∷ 7 ∷ 7 ∷ []) is_seven refl refl
      by_size-IsConsistent sevens-tie

names_differ : ◌≢◌ {A = String} "name" "size"
names_differ h = ground (arith, eq_iff "name" "size")

abbrev option : String → Bool → FieldSelectOption
option value disabled = record { value = value; label = codes value; disabled = disabled }

abbrev options : List FieldSelectOption
options = option "first" true ∷ option "second" false ∷ option "third" false ∷ []

abbrev keys : List Event
keys = enter ∷ arrow down ∷ enter ∷ []

told :
    (FieldSelect.run (λ s. s) options "second" false FieldSelect.initial keys).1
    ≡ changed "third" ∷ blurred ∷ []
unfolding FieldSelect.run
told = refl

run-initial-IsSafe_example :
    IsSafe
      (λ s. s)
      options
      "second"
      false
      (FieldSelect.run (λ s. s) options "second" false FieldSelect.initial keys).0
run-initial-IsSafe_example = run-initial-IsSafe (λ s. s) options "second" false keys

run-IsOffered_example :
    All
      (IsOffered options)
      (FieldSelect.run (λ s. s) options "second" false FieldSelect.initial keys).1
run-IsOffered_example = run-IsOffered (λ s. s) options "second" false FieldSelect.initial keys

abbrev third_option : FieldSelectOption
third_option = record { value = "c"; label = codes "В"; disabled = false }

abbrev three_options : List FieldSelectOption
three_options =
    record { value = "a"; label = codes "А"; disabled = false }
    ∷ record { value = "b"; label = codes "Б"; disabled = true }
    ∷ third_option
    ∷ []

-- The third option, past one that is disabled.
run-reaches_example :
    (es : List Event) × All IsKey es
    × ((vpnshiki.Ui.FieldSelect.run
          (λ s. s)
          three_options
          "a"
          false
          vpnshiki.Ui.FieldSelect.initial
          es).1
        ≡ changed "c" ∷ blurred ∷ [])
run-reaches_example =
    run-reaches (λ s. s) three_options "a" vpnshiki.Ui.FieldSelect.initial 2 third_option refl refl

abbrev low_control : ControlRect
low_control = record { left = 300; top = 500; bottom = 540; width = 200 }

abbrev phone_window : WindowSize
phone_window = record { inner_width = 400; inner_height = 600 }

popup_position_lem_example :
    let p = popup_position 3 phone_window low_control in
    (viewport_gap ≤ p.left)
    × (p.width + 2 * viewport_gap ≤ 400 → p.left + p.width + viewport_gap ≤ 400)
    × (80 ≤ p.max_height)
    × (p.max_height ≤ popup_max_height)
    × (p.above ≡ false → p.top ≡ 540 + popup_gap)
    × (p.above ≡ true
        → 92 ≤ 500
        → (viewport_gap ≤ p.top) × (p.top + smaller (estimated_height 3) p.max_height ≤ 500))
popup_position_lem_example = popup_position_lem 3 phone_window low_control
