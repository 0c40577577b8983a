-- ===== src/Ui/FieldSelect/Reach.antt =====
-- Every option that is not disabled can be chosen with the keyboard.

use vpnshiki.Ui.FieldSelect.{
  show, changed, blurred, arrow, home, enter, down, enabled_from, index_of, FieldSelectOption, move,
  choose, handle, Event, FieldSelect, enabled_indexes, position, run, next_position,
}
use vpnshiki.Prelude.{
  ℕ, some, [], ◌∷◌, zero, suc, true, false, inl, inr, refl, List, ◌<◌, get_elem?, ◌≡◌, Bool-cases,
  ◌+◌, ◌==◌, ap, arith, ◌∙◌, All, Bool, ◌≤◌, String, get_elem?-WhenSome, length, get_elem?_within,
  ◌-◌, WhenSome, Option, ◌++◌, lt-length_of_get_elem?, sym,
}
use vpnshiki.Text.{Text}
use vpnshiki.Ui.FieldSelect.Laws.{IsEnabledAt, enabled_from-IsEnabledAt}
use vpnshiki.Ui.FieldSelect.Cycle.{down_within}

-- The place in the list of an option that is not disabled.
place_of :
    (c n : ℕ) (options : List FieldSelectOption) (o : FieldSelectOption)
    → get_elem? options n ≡ some o
    → o.disabled ≡ false
    → (k : ℕ) × (get_elem? (enabled_from c options) k ≡ some (c + n))
unfolding enabled_from
place_of c n [] o h on = cc
place_of c zero (p ∷ ps) o h on =
    let same : p ≡ o = cc in
    let free : p.disabled ≡ false = ap (λ q. q.disabled) same ∙ on in
    (0, rw free (ap some (omega arith)))
place_of c (suc n) (p ∷ ps) o h on =
    let (k, there) = place_of (suc c) n ps o h on in
    let sum : suc c + n ≡ c + suc n = omega arith in
    elim (Bool-cases p.disabled) [
      | inl off ↦ rw off (k, there ∙ ap some sum)
      | inr free ↦ rw free (suc k, there ∙ ap some sum)
    ]

-- Places listed from `c` on are not before `c`.
listed_after :
    (c k i : ℕ) (options : List FieldSelectOption)
    → get_elem? (enabled_from c options) k ≡ some i
    → c ≤ i
listed_after c k i options h =
    let all =
      get_elem?-WhenSome (λ j. (c ≤ j) × IsEnabledAt options (j - c)) (enabled_from c options) k
        (enabled_from-IsEnabledAt c options) in
    let at : WhenSome (λ j. (c ≤ j) × IsEnabledAt options (j - c)) (some i) = rw h at all in at.0

index_of-listed :
    (c k i : ℕ) (ps : List FieldSelectOption)
    → ((m : ℕ)
        → get_elem? (enabled_from (suc c) ps) m ≡ some i
        → index_of i (enabled_from (suc c) ps) ≡ some m)
    → get_elem? (c ∷ enabled_from (suc c) ps) k ≡ some i
    → index_of i (c ∷ enabled_from (suc c) ps) ≡ some k
unfolding index_of
index_of-listed c zero i ps rest h = ground (arith, h)
index_of-listed c (suc k) i ps rest h =
    let after : suc c ≤ i = listed_after (suc c) k i ps h in
    let missed : (c == i) ≡ false = ground (arith, after) in rw (missed, rest k h) refl

-- The list holds each place once, so that a place is found where it stands.
index_of-enabled_from :
    (c k i : ℕ) (options : List FieldSelectOption)
    → get_elem? (enabled_from c options) k ≡ some i
    → index_of i (enabled_from c options) ≡ some k
unfolding enabled_from
index_of-enabled_from c k i [] h = cc
index_of-enabled_from c k i (p ∷ ps) h = elim (Bool-cases p.disabled) [
  | inl off ↦ rw off (index_of-enabled_from (suc c) k i ps (rw off at h))
  | inr free ↦
      rw free (index_of-listed c k i ps (λ m. index_of-enabled_from (suc c) m i ps) (rw free at h))
]

-- Opening a popup that is closed, the first option, `k` options on, and the choice.
abbrev down_and_choose : ℕ → List Event
down_and_choose zero = enter ∷ []
down_and_choose (suc k) = arrow down ∷ down_and_choose k

abbrev keys_to : (is_open : Bool) → ℕ → List Event
keys_to true k = home ∷ down_and_choose k
keys_to false k = enter ∷ home ∷ down_and_choose k

abbrev pub IsKey : Event → Type 0
IsKey (arrow direction) = Unit
IsKey home = Unit
IsKey enter = Unit
IsKey _ = ⊥

down_and_choose-IsKey : (k : ℕ) → All IsKey (down_and_choose k)
down_and_choose-IsKey zero = (tt, tt)
down_and_choose-IsKey (suc k) = (tt, down_and_choose-IsKey k)

keys_to-IsKey : (b : Bool) (k : ℕ) → All IsKey (keys_to b k)
keys_to-IsKey true k = (tt, down_and_choose-IsKey k)
keys_to-IsKey false k = (tt, (tt, down_and_choose-IsKey k))

module _ (to_lower : Text → Text) (options : List FieldSelectOption) (value : String) where
  -- An open popup whose active option is the one at a place of the list.
  abbrev at_place : ℕ → FieldSelect
  at_place j = record { open_popup = true; active_index = get_elem? (enabled_indexes options) j }

  move-at_place :
      (j : ℕ)
      → suc j < length (enabled_indexes options)
      → move to_lower options value false down (at_place j) ≡ at_place (suc j)
  unfolding move
  move-at_place j h =
      let (i, here) = get_elem?_within (enabled_indexes options) j (omega (arith, h)) in
      let found : index_of i (enabled_indexes options) ≡ some j =
        index_of-enabled_from 0 j i options here in
      let filled : (length (enabled_indexes options) == 0) ≡ false = ground (arith, h) in
      let placed : position (get_elem? (enabled_indexes options) j) (enabled_indexes options)
          ≡ some j =
        rw here found in
      let next : next_position down (some j) (length (enabled_indexes options)) ≡ suc j =
        down_within (length (enabled_indexes options)) j (omega (arith, h)) ∙ omega arith in
      rw (filled, placed, next) refl

  choose-at_place :
      (j i : ℕ) (o : FieldSelectOption)
      → get_elem? (enabled_indexes options) j ≡ some i
      → get_elem? options i ≡ some o
      → o.disabled ≡ false
      → (handle to_lower options value false (at_place j) enter).1 ≡ changed o.value ∷ blurred ∷ []
  unfolding handle choose
  choose-at_place j i o there h on = rw (there, h, on) refl

  run-down_and_choose :
      (k j i : ℕ) (o : FieldSelectOption)
      → get_elem? (enabled_indexes options) (j + k) ≡ some i
      → j + k < length (enabled_indexes options)
      → get_elem? options i ≡ some o
      → o.disabled ≡ false
      → (run to_lower options value false (at_place j) (down_and_choose k)).1
        ≡ changed o.value ∷ blurred ∷ []
  unfolding run handle
  run-down_and_choose zero j i o there h found on =
      let same : j + 0 ≡ j = omega arith in
      ap (λ t. t ++ [])
        (choose-at_place j i o (ap (get_elem? (enabled_indexes options)) (sym same) ∙ there) found
          on)
  run-down_and_choose (suc k) j i o there h found on =
      let same : j + suc k ≡ suc j + k = omega arith in
      ap (λ t. (run to_lower options value false t (down_and_choose k)).1)
        (move-at_place j (omega (arith, h)))
      ∙ run-down_and_choose k (suc j) i o
          (ap (get_elem? (enabled_indexes options)) (sym same) ∙ there) (omega (arith, h)) found on

  run-from_first :
      (k i : ℕ) (o : FieldSelectOption)
      → get_elem? (enabled_indexes options) k ≡ some i
      → get_elem? options i ≡ some o
      → o.disabled ≡ false
      → (run to_lower options value false (at_place 0) (down_and_choose k)).1
        ≡ changed o.value ∷ blurred ∷ []
  run-from_first k i o there found on =
      let within = lt-length_of_get_elem? (enabled_indexes options) k i there in
      let same : 0 + k ≡ k = omega arith in
      run-down_and_choose k 0 i o (ap (get_elem? (enabled_indexes options)) same ∙ there)
        (omega (arith, within)) found on

  run-keys_to :
      (b : Bool) (a : Option ℕ) (k i : ℕ) (o : FieldSelectOption)
      → get_elem? (enabled_indexes options) k ≡ some i
      → get_elem? options i ≡ some o
      → o.disabled ≡ false
      → (run to_lower options value false
          (record { open_popup = b; active_index = a })
          (keys_to b k)).1
        ≡ changed o.value ∷ blurred ∷ []
  unfolding run handle show
  run-keys_to true a k i o there found on = run-from_first k i o there found on
  run-keys_to false a k i o there found on =
      let within = lt-length_of_get_elem? (enabled_indexes options) k i there in
      let filled : (length (enabled_indexes options) == 0) ≡ false = ground (arith, within) in
      rw filled (run-from_first k i o there found on)

  -- From every state the keyboard alone chooses any option that is not disabled, in a control that is not.
  pub run-reaches :
      (s : FieldSelect) (n : ℕ) (o : FieldSelectOption)
      → get_elem? options n ≡ some o
      → o.disabled ≡ false
      → (es : List Event) × All IsKey es
        × ((run to_lower options value false s es).1 ≡ changed o.value ∷ blurred ∷ [])
  unfolding enabled_indexes
  run-reaches s n o found on =
      let (k, there) = place_of 0 n options o found on in
      (
        keys_to s.open_popup k,
        keys_to-IsKey s.open_popup k,
        run-keys_to s.open_popup s.active_index k n o (there ∙ ap some (omega arith)) found on,
      )
