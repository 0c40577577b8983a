-- ===== src/Ui/FieldSelect.antt =====
-- frontend/src/shared/ui/FieldSelect/FieldSelect.tsx: a list of options that the keyboard and the
-- pointer drive. The options, the value and `disabled` are what the parent gave at the render in
-- which an event is handled.
pub mod Laws
pub mod Offers
pub mod Cycle
pub mod Reach
pub mod Place
pub mod View
use mathlib.Core.Option
use vpnshiki.Prelude.{
  ℕ, ◌≡◌, none, some, [], ◌∷◌, true, false, zero, suc, Bool, List, Option, String, find, get_elem?,
  if◌then◌else◌, ◌++◌, ◌+◌, ◌-◌, drop, length, str_eq, ◌%◌, ◌&&◌, ◌==◌, ◌||◌, take, get_last?,
}
use vpnshiki.Text.{Text, starts_with}

pub record FieldSelectOption : Type 0 where
  pub value : String
  pub label : Text
  pub disabled : Bool

-- `activeIndex`: `none` is -1.
pub record FieldSelect : Type 0 where
  pub open_popup : Bool
  pub active_index : Option ℕ

-- What the parent is told.
pub data Notice : Type 0 where
  changed : String → Notice
  blurred : Notice

abbrev pub initial : FieldSelect
initial = record { open_popup = false; active_index = none }

-- The places of the options that are not disabled, from place `i` on.
unfoldable pub enabled_from : ℕ → List FieldSelectOption → List ℕ
enabled_from i [] = []
enabled_from i (o ∷ os) =
    let rest = enabled_from (suc i) os in if o.disabled then rest else i ∷ rest

unfoldable pub enabled_indexes : List FieldSelectOption → List ℕ
unfolding enabled_from
enabled_indexes options = enabled_from 0 options

-- `indexOf`
unfoldable pub index_of : ℕ → List ℕ → Option ℕ
index_of i [] = none
index_of i (j ∷ js) = let rest = index_of i js in if j == i then some 0 else Option.map suc rest

abbrev position : Option ℕ → List ℕ → Option ℕ
position none js = none
position (some i) js = index_of i js

-- `findIndex((option) => option.value === value)`
unfoldable pub selected_index : String → List FieldSelectOption → Option ℕ
selected_index value [] = none
selected_index value (o ∷ os) =
    let rest = selected_index value os in
    if str_eq o.value value then some 0 else Option.map suc rest

abbrev pub is_disabled : Option FieldSelectOption → Bool
is_disabled none = false
is_disabled (some o) = o.disabled

pub data Direction : Type 0 where
  down up : Direction

-- `(currentPosition + direction + length) % length`, or an end of the list without a position.
unfoldable pub next_position : Direction → Option ℕ → ℕ → ℕ
next_position down none n = 0
next_position up none n = n - 1
next_position down (some i) n = (i + 1 + n) % n
next_position up (some i) n = (i + n - 1) % n

-- What is pressed, typed or clicked; `letter` is a key of one character without Ctrl, Meta or Alt.
pub data Event : Type 0 where
  arrow : Direction → Event
  home end_key escape enter : Event
  letter : Text → Event
  control_click : Event
  option_click option_hover : ℕ → Event
  pointer_outside : Event
  focus_lost : (to_popup to_element : Bool) → Event

module _ (to_lower : Text → Text) (options : List FieldSelectOption) (value : String)
    (disabled : Bool) where
  -- `activeIndex` when the popup opens: the selected option, or the first that is not disabled.
  start_index : Option ℕ → Option ℕ
  unfolding enabled_indexes
  start_index none = get_elem? (enabled_indexes options) 0
  start_index (some i) =
      if is_disabled (get_elem? options i) then get_elem? (enabled_indexes options) 0 else some i

  unfoldable pub show : FieldSelect → FieldSelect
  unfolding start_index selected_index enabled_indexes
  show s =
      if disabled || length (enabled_indexes options) == 0
      then s
      else record { open_popup = true; active_index = start_index (selected_index value options) }

  abbrev close : FieldSelect → FieldSelect
  close s = record s { open_popup = false }

  abbrev choose_option : FieldSelect → Option FieldSelectOption → FieldSelect × List Notice
  choose_option s none = (s, [])
  choose_option s (some o) =
      if o.disabled then (s, []) else (close s, changed o.value ∷ blurred ∷ [])

  unfoldable pub choose : FieldSelect → Option ℕ → FieldSelect × List Notice
  choose s none = (s, [])
  choose s (some i) = choose_option s (get_elem? options i)

  unfoldable pub move : Direction → FieldSelect → FieldSelect
  unfolding next_position index_of enabled_indexes
  move direction s =
      let enabled = enabled_indexes options in
      if length enabled == 0 then s else record s {
        active_index =
            get_elem? enabled
              (next_position direction (position s.active_index enabled) (length enabled));
      }

  label_matches : Text → Option FieldSelectOption → Bool
  unfolding starts_with
  label_matches query none = false
  label_matches query (some o) = starts_with (to_lower o.label) query

  abbrev next_start : Option ℕ → ℕ
  next_start none = 0
  next_start (some i) = i + 1

  -- The option after the active one whose label begins with the letter, around the list.
  unfoldable pub typed_match : Text → FieldSelect → Option ℕ
  unfolding label_matches enabled_indexes index_of
  typed_match key s =
      let enabled = enabled_indexes options in
      let start = next_start (position s.active_index enabled) in
      find (λ i. label_matches (to_lower key) (get_elem? options i))
        (drop start enabled ++ take start enabled)

  abbrev typed : FieldSelect → Option ℕ → FieldSelect
  typed s none = s
  typed s (some i) = record (if s.open_popup then s else show s) { active_index = some i }

  hover : FieldSelect → ℕ → Option FieldSelectOption → FieldSelect
  hover s i none = s
  hover s i (some o) = if o.disabled then s else record s { active_index = some i }

  -- `onBlur` of the control: focus that goes to the popup is kept.
  lose_focus : FieldSelect → Bool → Bool → FieldSelect × List Notice
  lose_focus s true to_element = (s, [])
  lose_focus s false to_element = (if s.open_popup && to_element then close s else s, blurred ∷ [])

  unfoldable pub handle : FieldSelect → Event → FieldSelect × List Notice
  unfolding show choose move typed_match hover lose_focus
  handle s (arrow direction) = (if s.open_popup then move direction s else show s, [])
  handle s home = (
    if s.open_popup then record s { active_index = get_elem? (enabled_indexes options) 0 } else s,
    [],
  )
  handle s end_key = (
    if s.open_popup then record s { active_index = get_last? (enabled_indexes options) } else s,
    [],
  )
  handle s escape = if s.open_popup then (close s, blurred ∷ []) else (s, [])
  handle s enter = if s.open_popup then choose s s.active_index else (show s, [])
  handle s (letter key) = (typed s (typed_match key s), [])
  handle s control_click = if s.open_popup then (close s, blurred ∷ []) else (show s, [])
  handle s (option_click i) = if s.open_popup then choose s (some i) else (s, [])
  handle s (option_hover i) = (if s.open_popup then hover s i (get_elem? options i) else s, [])
  handle s pointer_outside = if s.open_popup then (close s, blurred ∷ []) else (s, [])
  handle s (focus_lost to_popup to_element) = lose_focus s to_popup to_element

  -- Events one after another, with all that the parent is told.
  unfoldable pub run : FieldSelect → List Event → FieldSelect × List Notice
  unfolding handle
  run s [] = (s, [])
  run s (e ∷ es) = let (t, told) = handle s e in let (u, later) = run t es in (u, told ++ later)
