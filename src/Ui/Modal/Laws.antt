-- ===== src/Ui/Modal/Laws.antt =====
-- The Tab key goes round the elements of the window.
use vpnshiki.Ui.Modal.{
  escape, tab, other_key, key_down, moved, trapped, Document, is_focused, ModalKey, keys_down,
  open_modal, close_modal,
}
use vpnshiki.Ui.FieldSelect.{up, down, Direction, next_position}
use vpnshiki.Prelude.{
  ℕ, some, [], ◌∷◌, zero, suc, true, false, inl, inr, refl, Bool, List, Option, get_elem?, ◌<◌,
  length, ◌≡◌, get_last?, ◌-◌, arith, ◌≢◌, get_elem?_within, get_last?-eq-get_elem?, ◌∙◌, ap, sym,
  Bool-cases, ◌+◌, ◌==◌,
}
use vpnshiki.Ui.FieldSelect.Cycle.{
  up_first, up_within, down_last, down_within, next_position-opposite,
}

abbrev direction : Bool → Direction
direction true = up
direction false = down

is_focused-hit : (f o : Option ℕ) (a : ℕ) → f ≡ some a → o ≡ some a → is_focused f o ≡ true
is_focused-hit f o a h k = rw (h, k) ground arith

is_focused-miss :
    (f o : Option ℕ) (a b : ℕ) → f ≡ some a → o ≡ some b → a ≢ b → is_focused f o ≡ false
is_focused-miss f o a b h k n = rw (h, k) ground (arith, n)

last_element : (xs : List ℕ) → 0 < length xs → get_last? xs ≡ get_elem? xs (length xs - 1)
last_element [] h = ground (arith, h)
last_element (x ∷ xs) h = get_last?-eq-get_elem? x xs ∙ ap (get_elem? (x ∷ xs)) (omega arith)

-- No element stands in the list twice.
abbrev pub HasNoRepeats : List ℕ → Type 0
HasNoRepeats xs = (i j a : ℕ) → get_elem? xs i ≡ some a → get_elem? xs j ≡ some a → i ≡ j

module _ (focusable : List ℕ) (browser_move : Bool → ℕ → Option ℕ) where
  -- The browser moves the focus from one of the elements to the next or the one before, where there is one.
  pub record IsInOrder : Type 0 where
    pub forward :
        (i a b : ℕ)
        → get_elem? focusable i ≡ some a
        → get_elem? focusable (suc i) ≡ some b
        → browser_move false a ≡ some b
    pub backward :
        (i a b : ℕ)
        → get_elem? focusable i ≡ some a
        → get_elem? focusable (suc i) ≡ some b
        → browser_move true b ≡ some a

  differs :
      HasNoRepeats focusable
      → (i j a b : ℕ) → get_elem? focusable i ≡ some a
      → get_elem? focusable j ≡ some b
      → i ≢ j
      → a ≢ b
  differs distinct i j a b h k n e = n (distinct i j b (h ∙ ap some e) k)

  -- In an open window the Tab key moves the focus from an element of the window to the next, with Shift to
  -- the one before, around the ends of their list; so the focus never leaves the window.
  pub key_down-tab :
      (d : Document) (shift : Bool) (i a : ℕ)
      → IsInOrder
      → HasNoRepeats focusable
      → i < length focusable
      → get_elem? focusable i ≡ some a
      → d.focus ≡ some a
      → (key_down focusable browser_move d (tab shift)).0.focus
        ≡ get_elem? focusable (next_position (direction shift) (some i) (length focusable))
  unfolding key_down moved trapped next_position
  key_down-tab d true zero a order distinct h at f =
      let (z, end) = get_elem?_within focusable (length focusable - 1) (omega (arith, h)) in
      let hit = is_focused-hit d.focus (get_elem? focusable 0) a f at in
      rw (hit, last_element focusable h, up_first (length focusable) h, end) refl
  key_down-tab d true (suc i) a order distinct h at f =
      let (b, first) = get_elem?_within focusable 0 (omega (arith, h)) in
      let (c, before) = get_elem?_within focusable i (omega (arith, h)) in
      let miss =
        is_focused-miss d.focus (get_elem? focusable 0) a b f first
          (differs distinct (suc i) 0 a b at first (omega arith)) in
      let same : i + 1 ≡ suc i = omega arith in
      let place : next_position up (some (suc i)) (length focusable) ≡ i =
        ap (λ k. next_position up (some k) (length focusable)) (sym same)
        ∙ up_within (length focusable) i (omega (arith, h)) in
      rw (miss, f)
        (order.backward i c a before at ∙ sym before ∙ ap (get_elem? focusable) (sym place))
  key_down-tab d false i a order distinct h at f = elim (Bool-cases (i + 1 == length focusable)) [
    | inl end ↦
        let all : i + 1 ≡ length focusable = ground (arith, end) in
        let here : length focusable - 1 ≡ i = omega (arith, all) in
        let (b, first) = get_elem?_within focusable 0 (omega (arith, h)) in
        let last = last_element focusable (omega (arith, h)) ∙ ap (get_elem? focusable) here ∙ at in
        rw
          (
            is_focused-hit d.focus (get_last? focusable) a f last,
            down_last (length focusable) i all,
            first,
          )
          refl
    | inr middle ↦
        let before_end : i + 1 < length focusable = ground (arith, middle, h) in
        let (z, final) = get_elem?_within focusable (length focusable - 1) (omega (arith, h)) in
        let (b, next) = get_elem?_within focusable (suc i) (omega (arith, before_end)) in
        let miss =
          is_focused-miss d.focus (get_last? focusable) a z f
            (last_element focusable (omega (arith, h)) ∙ final)
            (differs distinct i (length focusable - 1) a z at final (omega (arith, before_end))) in
        let same : suc i ≡ i + 1 = omega arith in
        let place : suc i ≡ next_position down (some i) (length focusable) =
          same ∙ sym (down_within (length focusable) i before_end) in
        rw (miss, f) (order.forward i a b at next ∙ sym next ∙ ap (get_elem? focusable) place)
  ]

  -- The focus is on an element of the window.
  abbrev pub IsInside : Document → Type 0
  IsInside d =
      (i a : ℕ) × (i < length focusable) × (get_elem? focusable i ≡ some a) × (d.focus ≡ some a)

  next_position_within : (b : Bool) (n i : ℕ) → i < n → next_position (direction b) (some i) n < n
  next_position_within b n i h = (next_position-opposite (direction b) n i h).0

  key_down-IsInside :
      (d : Document) (k : ModalKey)
      → IsInOrder
      → HasNoRepeats focusable
      → IsInside d
      → IsInside (key_down focusable browser_move d k).0
  unfolding key_down
  key_down-IsInside d escape order distinct w = w
  key_down-IsInside d other_key order distinct w = w
  key_down-IsInside d (tab shift) order distinct (i, a, h, at, f) =
      let within = next_position_within shift (length focusable) i h in
      let (b, there) =
        get_elem?_within focusable (next_position (direction shift) (some i) (length focusable))
          within in
      (
        next_position (direction shift) (some i) (length focusable),
        b,
        within,
        there,
        key_down-tab d shift i a order distinct h at f ∙ there,
      )

  keys_down-IsInside :
      (d : Document) (ks : List ModalKey)
      → IsInOrder
      → HasNoRepeats focusable
      → IsInside d
      → IsInside (keys_down focusable browser_move d ks)
  unfolding keys_down
  keys_down-IsInside d [] order distinct w = w
  keys_down-IsInside d (k ∷ ks) order distinct w =
      keys_down-IsInside (key_down focusable browser_move d k).0 ks order distinct
        (key_down-IsInside d k order distinct w)

  keys_down-overflow :
      (d : Document) (ks : List ModalKey)
      → (keys_down focusable browser_move d ks).overflow ≡ d.overflow
  unfolding keys_down key_down
  keys_down-overflow d [] = refl
  keys_down-overflow d (escape ∷ ks) = keys_down-overflow d ks
  keys_down-overflow d (other_key ∷ ks) = keys_down-overflow d ks
  keys_down-overflow d (tab shift ∷ ks) =
      keys_down-overflow (key_down focusable browser_move d (tab shift)).0 ks

  -- From the opening of a window on, whatever keys are pressed, the focus stays on an element of the window
  -- and the page cannot be scrolled; when it closes, the page scrolls as before and the element that had the focus has it again.
  pub keys_down-open_modal :
      (d : Document) (close i b : ℕ) (ks : List ModalKey)
      → IsInOrder
      → HasNoRepeats focusable
      → i < length focusable
      → get_elem? focusable i ≡ some close
      → d.focus ≡ some b
      → let now = keys_down focusable browser_move (open_modal close d).1 ks in
        IsInside now × (now.overflow ≡ "hidden") × (close_modal (open_modal close d).0 now ≡ d)
  unfolding open_modal close_modal
  keys_down-open_modal d close i b ks order distinct h at f = (
    keys_down-IsInside (record { focus = some close; overflow = "hidden" }) ks order distinct
        (i, close, h, at, refl),
    keys_down-overflow (record { focus = some close; overflow = "hidden" }) ks,
    rw f refl,
  )
