-- ===== src/Ui/FieldSelect/Laws.antt =====
-- Only an option that is not disabled is ever active, and only a popup of use is open.
use mathlib.Core.Option
use vpnshiki.Ui.FieldSelect.{
  FieldSelectOption, FieldSelect, Notice, changed, blurred, Event, arrow, home, end_key, escape,
  enter, letter, control_click, option_click, option_hover, pointer_outside, focus_lost,
  enabled_from, enabled_indexes, index_of, selected_index, is_disabled, start_index, next_start,
  typed, typed_match, position, hover, choose_option, choose, lose_focus, handle, run, initial,
  next_position, Direction, down, up, choose, handle, typed_match,
}
use vpnshiki.Ui.FieldSelect
use vpnshiki.Prelude.{
  ℕ, suc, none, some, [], ◌∷◌, true, false, inl, inr, List, Option, All, get_elem?, ◌≡◌, length,
  All-mono, WhenSome, ◌≤◌, String, ◌-◌, Bool, arith, Bool-cases, get_elem?-WhenSome, ◌≢◌, str_eq,
  ◌||◌, ◌==◌, All-append, find-WhenSome, get_last?, if◌then◌else◌, ◌&&◌, drop, get_last?-WhenSome,
  ◌++◌, take, All-drop, All-take, refl,
}
use vpnshiki.Text.{Text}

-- The option at a place exists and is not disabled.
abbrev pub IsEnabledOption : Option FieldSelectOption → Type 0
IsEnabledOption none = ⊥
IsEnabledOption (some o) = o.disabled ≡ false

abbrev pub IsEnabledAt : List FieldSelectOption → ℕ → Type 0
IsEnabledAt options i = IsEnabledOption (get_elem? options i)

abbrev pub IsActivable : List FieldSelectOption → Option ℕ → Type 0
IsActivable options none = Unit
IsActivable options (some i) = IsEnabledAt options i

-- Every place listed from `k` on is that of an enabled option, counted from `k`.
pub enabled_from-IsEnabledAt :
    (k : ℕ) (options : List FieldSelectOption)
    → All (λ i. (k ≤ i) × IsEnabledAt options (i - k)) (enabled_from k options)
unfolding enabled_from
enabled_from-IsEnabledAt k [] = tt
enabled_from-IsEnabledAt k (o ∷ os) =
    let later =
      All-mono (λ i. (suc k ≤ i) × IsEnabledAt os (i - suc k))
        (λ i. (k ≤ i) × IsEnabledAt (o ∷ os) (i - k))
        (λ i h.
          let step : i - k ≡ suc (i - suc k) = omega (arith, h.0) in
          (omega (arith, h.0), rw step h.1))
        (enabled_from (suc k) os) (enabled_from-IsEnabledAt (suc k) os) in
    elim (Bool-cases o.disabled) [
      | inl off ↦ simp off later
      | inr on ↦ let here : k - k ≡ 0 = omega arith in simp on ((omega arith, rw here on), later)
    ]

pub enabled_indexes-IsEnabledAt :
    (options : List FieldSelectOption) → All (IsEnabledAt options) (enabled_indexes options)
unfolding enabled_indexes
enabled_indexes-IsEnabledAt options =
    All-mono (λ i. (0 ≤ i) × IsEnabledAt options (i - 0)) (IsEnabledAt options)
      (λ i h. let same : i - 0 ≡ i = omega arith in rw same at h.1) (enabled_indexes options)
      (enabled_from-IsEnabledAt 0 options)

IsActivable-of_WhenSome :
    (options : List FieldSelectOption) (o : Option ℕ)
    → WhenSome (IsEnabledAt options) o
    → IsActivable options o
IsActivable-of_WhenSome options none h = tt
IsActivable-of_WhenSome options (some i) h = h

-- There is an option at the place.
abbrev IsPlace : Option FieldSelectOption → Type 0
IsPlace none = ⊥
IsPlace (some o) = Unit

IsEnabledOption-of_IsPlace :
    (o : Option FieldSelectOption) → IsPlace o → is_disabled o ≡ false → IsEnabledOption o
IsEnabledOption-of_IsPlace none h e = h
IsEnabledOption-of_IsPlace (some o) h e = e

WhenSome-map-suc :
    (P : ℕ → Type 0) (i : Option ℕ) → WhenSome (λ j. P (suc j)) i → WhenSome P (Option.map suc i)
WhenSome-map-suc P none h = tt
WhenSome-map-suc P (some i) h = h

selected_index-IsPlace :
    (value : String) (options : List FieldSelectOption)
    → WhenSome (λ j. IsPlace (get_elem? options j)) (selected_index value options)
unfolding selected_index
selected_index-IsPlace value [] = tt
selected_index-IsPlace value (o ∷ os) = elim (Bool-cases (str_eq o.value value)) [
  | inl found ↦ simp found tt
  | inr missed ↦ simp missed (
      WhenSome-map-suc (λ j. IsPlace (get_elem? (o ∷ os) j)) (selected_index value os)
        (selected_index-IsPlace value os))
]

module _ (to_lower : Text → Text) (options : List FieldSelectOption) (value : String)
    (disabled : Bool) where
  -- An open popup has an option to choose, and the active option is never a disabled one.
  pub record IsSafe (s : FieldSelect) : Type 0 where
    pub active : IsActivable options s.active_index
    pub usable : s.open_popup ≡ true → (disabled ≡ false) × (enabled_indexes options ≢ [])

  place-IsActivable : (n : ℕ) → IsActivable options (get_elem? (enabled_indexes options) n)
  place-IsActivable n = IsActivable-of_WhenSome options _ (
      get_elem?-WhenSome (IsEnabledAt options) (enabled_indexes options) n
        (enabled_indexes-IsEnabledAt options))

  last-IsActivable : IsActivable options (get_last? (enabled_indexes options))
  last-IsActivable = IsActivable-of_WhenSome options _ (
      get_last?-WhenSome (IsEnabledAt options) (enabled_indexes options)
        (enabled_indexes-IsEnabledAt options))

  closed-IsSafe :
      {a : Option ℕ}
      → IsActivable options a
      → IsSafe (record { open_popup = false; active_index = a })
  closed-IsSafe h = record { active = h; usable = λ e. cc }

  -- The active option may change to another that is not disabled.
  active-IsSafe :
      {s : FieldSelect} {a : Option ℕ}
      → IsSafe s
      → IsActivable options a
      → IsSafe (record s { active_index = a })
  active-IsSafe v h = record { active = h; usable = v.usable }

  start_index-IsActivable :
      (i : Option ℕ)
      → WhenSome (λ j. IsPlace (get_elem? options j)) i
      → IsActivable options (start_index to_lower options value disabled i)
  unfolding start_index
  start_index-IsActivable none h = place-IsActivable 0
  start_index-IsActivable (some i) h = elim (Bool-cases (is_disabled (get_elem? options i))) [
    | inl off ↦ rw off (place-IsActivable 0)
    | inr on ↦ rw on (IsEnabledOption-of_IsPlace (get_elem? options i) h on)
  ]

  show-IsSafe :
      {s : FieldSelect} → IsSafe s → IsSafe (FieldSelect.show to_lower options value disabled s)
  unfolding FieldSelect.show
  show-IsSafe v = elim (Bool-cases (disabled || length (enabled_indexes options) == 0)) [
    | inl refused ↦ rw refused v
    | inr accepted ↦ rw accepted (record {
      active =
          start_index-IsActivable (selected_index value options)
            (selected_index-IsPlace value options);
      usable = λ e. ground arith;
    })
  ]

  move-IsSafe :
      (direction : Direction) {s : FieldSelect}
      → IsSafe s
      → IsSafe (FieldSelect.move to_lower options value disabled direction s)
  unfolding FieldSelect.move
  move-IsSafe direction {s} v = elim (Bool-cases (length (enabled_indexes options) == 0)) [
    | inl empty ↦ rw empty v
    | inr filled ↦ rw filled (active-IsSafe v (place-IsActivable _))
  ]

  typed_match-IsActivable :
      (key : Text) (s : FieldSelect)
      → IsActivable options (typed_match to_lower options value disabled key s)
  unfolding typed_match
  typed_match-IsActivable key s =
      let enabled = enabled_indexes options in
      let start = next_start to_lower options value disabled (position s.active_index enabled) in
      let all = enabled_indexes-IsEnabledAt options in
      IsActivable-of_WhenSome options _ (
        find-WhenSome (IsEnabledAt options) _ (drop start enabled ++ take start enabled) (
          All-append (IsEnabledAt options) (drop start enabled) (take start enabled)
            (All-drop (IsEnabledAt options) start enabled all)
            (All-take (IsEnabledAt options) start enabled all)))

  either-IsSafe : (b : Bool) {s t : FieldSelect} → IsSafe s → IsSafe t → IsSafe (if b then s else t)
  either-IsSafe true v w = v
  either-IsSafe false v w = w

  typed-IsSafe :
      {s : FieldSelect} (i : Option ℕ)
      → IsSafe s
      → IsActivable options i
      → IsSafe (typed to_lower options value disabled s i)
  typed-IsSafe none v h = v
  typed-IsSafe {s} (some i) v h = active-IsSafe (either-IsSafe s.open_popup v (show-IsSafe v)) h

  hover-IsSafe :
      {s : FieldSelect} (i : ℕ) (o : Option FieldSelectOption)
      → get_elem? options i ≡ o
      → IsSafe s
      → IsSafe (hover to_lower options value disabled s i o)
  unfolding hover
  hover-IsSafe i none e v = v
  hover-IsSafe i (some o) e v = elim (Bool-cases o.disabled) [
    | inl off ↦ simp off v
    | inr on ↦ simp on (active-IsSafe v (rw e on))
  ]

  choose_option-IsSafe :
      {s : FieldSelect} (o : Option FieldSelectOption)
      → IsSafe s
      → IsSafe (choose_option to_lower options value disabled s o).0
  choose_option-IsSafe none v = v
  choose_option-IsSafe (some o) v = elim (Bool-cases o.disabled) [
    | inl off ↦ simp off v
    | inr on ↦ simp on (closed-IsSafe v.active)
  ]

  choose-IsSafe :
      {s : FieldSelect} (i : Option ℕ)
      → IsSafe s
      → IsSafe (choose to_lower options value disabled s i).0
  unfolding choose
  choose-IsSafe none v = v
  choose-IsSafe (some i) v = choose_option-IsSafe (get_elem? options i) v

  either-IsSafe_pair :
      (b : Bool) (s t : FieldSelect × List Notice)
      → IsSafe s.0
      → IsSafe t.0
      → IsSafe (if b then s else t).0
  either-IsSafe_pair true s t v w = v
  either-IsSafe_pair false s t v w = w

  lose_focus-IsSafe :
      {s : FieldSelect} (to_popup to_element : Bool)
      → IsSafe s
      → IsSafe (lose_focus to_lower options value disabled s to_popup to_element).0
  unfolding lose_focus
  lose_focus-IsSafe true to_element v = v
  lose_focus-IsSafe {s} false to_element v =
      either-IsSafe (s.open_popup && to_element) (closed-IsSafe v.active) v

  handle-IsSafe :
      {s : FieldSelect} (e : Event)
      → IsSafe s
      → IsSafe (handle to_lower options value disabled s e).0
  unfolding handle
  handle-IsSafe {s} (arrow d) v = either-IsSafe s.open_popup (move-IsSafe d v) (show-IsSafe v)
  handle-IsSafe {s} home v = either-IsSafe s.open_popup (active-IsSafe v (place-IsActivable 0)) v
  handle-IsSafe {s} end_key v = either-IsSafe s.open_popup (active-IsSafe v last-IsActivable) v
  handle-IsSafe {s} escape v = either-IsSafe_pair s.open_popup _ _ (closed-IsSafe v.active) v
  handle-IsSafe {s} enter v =
      either-IsSafe_pair s.open_popup _ _ (choose-IsSafe s.active_index v) (show-IsSafe v)
  handle-IsSafe {s} (letter key) v = typed-IsSafe _ v (typed_match-IsActivable key s)
  handle-IsSafe {s} control_click v =
      either-IsSafe_pair s.open_popup _ _ (closed-IsSafe v.active) (show-IsSafe v)
  handle-IsSafe {s} (option_click i) v =
      either-IsSafe_pair s.open_popup _ _ (choose-IsSafe (some i) v) v
  handle-IsSafe {s} (option_hover i) v =
      either-IsSafe s.open_popup (hover-IsSafe i (get_elem? options i) refl v) v
  handle-IsSafe {s} pointer_outside v =
      either-IsSafe_pair s.open_popup _ _ (closed-IsSafe v.active) v
  handle-IsSafe (focus_lost to_popup to_element) v = lose_focus-IsSafe to_popup to_element v

  run-IsSafe :
      {s : FieldSelect} (es : List Event)
      → IsSafe s
      → IsSafe (run to_lower options value disabled s es).0
  unfolding run
  run-IsSafe [] v = v
  run-IsSafe {s} (e ∷ es) v =
      run-IsSafe {s = (handle to_lower options value disabled s e).0} es (handle-IsSafe e v)

  initial-IsSafe : IsSafe initial
  initial-IsSafe = record { active = tt; usable = λ e. cc }

  -- After any events the active option is none or one that is not disabled, and the popup is open
  -- only if the control is not disabled and some option can be chosen.
  pub run-initial-IsSafe :
      (es : List Event) → IsSafe (run to_lower options value disabled initial es).0
  run-initial-IsSafe es = run-IsSafe es initial-IsSafe
