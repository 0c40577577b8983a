-- ===== src/Ui/FieldSelect/Offers.antt =====
-- Only the value of an option that is not disabled is ever told to the parent.

use vpnshiki.Ui.FieldSelect.{
  FieldSelectOption, FieldSelect, Notice, changed, blurred, Event, arrow, home, end_key, escape,
  enter, letter, control_click, option_click, option_hover, pointer_outside, focus_lost,
  choose_option, choose, lose_focus, handle, run, choose, handle,
}
use vpnshiki.Prelude.{
  ℕ, none, some, [], ◌∷◌, true, false, inl, inr, List, Option, All, get_elem?, ◌≡◌, String, Bool,
  Bool-cases, All-append, if◌then◌else◌, refl,
}
use vpnshiki.Text.{Text}

-- The value of an option that is not disabled.
abbrev pub IsOffered : List FieldSelectOption → Notice → Type 0
IsOffered options blurred = Unit
IsOffered options (changed v) =
    (i : ℕ) × (o : FieldSelectOption) × (get_elem? options i ≡ some o)
    × (o.disabled ≡ false)
    × (o.value ≡ v)

module _ (to_lower : Text → Text) (options : List FieldSelectOption) (value : String)
    (disabled : Bool) where
  choose_option-IsOffered :
      (s : FieldSelect) (i : ℕ) (o : Option FieldSelectOption)
      → get_elem? options i ≡ o
      → All (IsOffered options) (choose_option to_lower options value disabled s o).1
  choose_option-IsOffered s i none e = tt
  choose_option-IsOffered s i (some o) e = elim (Bool-cases o.disabled) [
    | inl off ↦ simp off tt
    | inr on ↦ simp on ((i, o, e, on, refl), (tt, tt))
  ]

  choose-IsOffered :
      (s : FieldSelect) (i : Option ℕ)
      → All (IsOffered options) (choose to_lower options value disabled s i).1
  unfolding choose
  choose-IsOffered s none = tt
  choose-IsOffered s (some i) = choose_option-IsOffered s i (get_elem? options i) refl

  either-IsOffered :
      (b : Bool) (s t : FieldSelect × List Notice)
      → All (IsOffered options) s.1
      → All (IsOffered options) t.1
      → All (IsOffered options) (if b then s else t).1
  either-IsOffered true s t h k = h
  either-IsOffered false s t h k = k

  handle-IsOffered :
      (s : FieldSelect) (e : Event)
      → All (IsOffered options) (handle to_lower options value disabled s e).1
  unfolding handle lose_focus
  handle-IsOffered s (arrow d) = tt
  handle-IsOffered s home = tt
  handle-IsOffered s end_key = tt
  handle-IsOffered s escape = either-IsOffered s.open_popup _ _ (tt, tt) tt
  handle-IsOffered s enter =
      either-IsOffered s.open_popup _ _ (choose-IsOffered s s.active_index) tt
  handle-IsOffered s (letter key) = tt
  handle-IsOffered s control_click = either-IsOffered s.open_popup _ _ (tt, tt) tt
  handle-IsOffered s (option_click i) =
      either-IsOffered s.open_popup _ _ (choose-IsOffered s (some i)) tt
  handle-IsOffered s (option_hover i) = tt
  handle-IsOffered s pointer_outside = either-IsOffered s.open_popup _ _ (tt, tt) tt
  handle-IsOffered s (focus_lost true to_element) = tt
  handle-IsOffered s (focus_lost false to_element) = (tt, tt)

  -- Whatever the events, each value that the parent is told is that of an option that is not
  -- disabled.
  pub run-IsOffered :
      (s : FieldSelect) (es : List Event)
      → All (IsOffered options) (run to_lower options value disabled s es).1
  unfolding run
  run-IsOffered s [] = tt
  run-IsOffered s (e ∷ es) =
      All-append (IsOffered options) (handle to_lower options value disabled s e).1 _
        (handle-IsOffered s e) (run-IsOffered (handle to_lower options value disabled s e).0 es)
