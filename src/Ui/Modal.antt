-- ===== src/Ui/Modal.antt =====
-- frontend/src/shared/ui/Modal/Modal.tsx: the window over the page. An element that can have the focus is a
-- number; the elements of the window that `querySelectorAll` finds, and where the browser itself moves the
-- focus at the Tab key, are parameters.
pub mod Laws
use vpnshiki.Prelude.{
  ℕ, none, some, [], ◌∷◌, zero, suc, true, false, inl, inr, refl, Bool, List, Option, String,
  if◌then◌else◌, ◌==◌, get_elem?, get_last?,
}

pub record Document : Type 0 where
  pub focus : Option ℕ
  pub overflow : String

-- What the effect keeps: `previousFocus` and `previousOverflow`.
pub record Saved : Type 0 where
  pub focus : Option ℕ
  pub overflow : String

-- The effect when the window opens, from the close button's element.
unfoldable pub open_modal : ℕ → Document → Saved × Document
open_modal close d = (
  record { focus = d.focus; overflow = d.overflow },
  record { focus = some close; overflow = "hidden" },
)

abbrev focus_or : Option ℕ → Option ℕ → Option ℕ
focus_or none now = now
focus_or (some element) now = some element

-- Its cleanup when the window closes.
unfoldable pub close_modal : Saved → Document → Document
close_modal saved d = record { focus = focus_or saved.focus d.focus; overflow = saved.overflow }

pub data ModalKey : Type 0 where
  escape : ModalKey
  tab : (shift : Bool) → ModalKey
  other_key : ModalKey

abbrev is_focused : Option ℕ → Option ℕ → Bool
is_focused (some a) (some b) = a == b
is_focused _ _ = false

-- The element that the handler moves the focus to, if it prevents the browser's own move.
unfoldable pub trapped : List ℕ → Option ℕ → Bool → Option ℕ
trapped focusable focus true =
    if is_focused focus (get_elem? focusable 0) then get_last? focusable else none
trapped focusable focus false =
    if is_focused focus (get_last? focusable) then get_elem? focusable 0 else none

module _ (focusable : List ℕ) (browser_move : Bool → ℕ → Option ℕ) where
  abbrev browser_focus : Bool → Option ℕ → Option ℕ
  browser_focus shift none = none
  browser_focus shift (some element) = browser_move shift element

  moved : Bool → Option ℕ → Option ℕ → Option ℕ
  moved shift focus none = browser_focus shift focus
  moved shift focus (some element) = some element

  -- `onKeyDown`: the document after the key, and whether the owner is told to close the window.
  unfoldable pub key_down : Document → ModalKey → Document × Bool
  unfolding trapped moved
  key_down d escape = (d, true)
  key_down d (tab shift) =
      (record d { focus = moved shift d.focus (trapped focusable d.focus shift) }, false)
  key_down d other_key = (d, false)

  unfoldable pub keys_down : Document → List ModalKey → Document
  unfolding key_down
  keys_down d [] = d
  keys_down d (k ∷ ks) = keys_down (key_down d k).0 ks

-- `onMouseDown` of the backdrop: a press on the backdrop itself closes the window.
unfoldable pub backdrop_closes : (target current_target : ℕ) → Bool
backdrop_closes target current_target = target == current_target
