-- ===== src/Shell/Theme.antt =====
-- frontend/src/app/providers/withTheme/useTheme.ts: the theme, kept in the browser's storage.
use vpnshiki.Prelude.{
  ℕ, none, some, zero, suc, false, refl, Option, String, ◌≡◌, Bool, if◌then◌else◌, str_eq,
}

pub data Theme : Type 0 where
  dark light : Theme

abbrev pub theme_name : Theme → String
theme_name dark = "dark"
theme_name light = "light"

-- What the storage holds under the key of the theme, and the theme that the document is marked with.
pub record ThemeState : Type 0 where
  pub theme : Theme
  pub stored : Option String
  pub marked : Option String

abbrev holds_light : Option String → Bool
holds_light none = false
holds_light (some s) = str_eq s "light"

-- In a browser: a theme that is not known is dark.
unfoldable pub initial_theme : Option String → Theme
initial_theme stored = if holds_light stored then light else dark

-- The effect after a render in which the theme changed.
unfoldable pub store_theme : ThemeState → ThemeState
store_theme s = record s { stored = some (theme_name s.theme); marked = some (theme_name s.theme) }

unfoldable pub toggled : Theme → Theme
toggled dark = light
toggled light = dark

unfoldable pub toggle_theme : ThemeState → ThemeState
unfolding toggled store_theme
toggle_theme s = store_theme (record s { theme = toggled s.theme })

-- A page that is opened with what the storage holds.
unfoldable pub start : Option String → ThemeState
unfolding initial_theme store_theme
start stored = store_theme (record { theme = initial_theme stored; stored = stored; marked = none })

unfoldable pub toggle_times : ℕ → ThemeState → ThemeState
unfolding toggle_theme
toggle_times zero s = s
toggle_times (suc n) s = toggle_times n (toggle_theme s)

-- The state after its effect.
abbrev IsStored : ThemeState → Type 0
IsStored s = (s.stored ≡ some (theme_name s.theme)) × (s.marked ≡ some (theme_name s.theme))

initial_theme-theme_name : (t : Theme) → initial_theme (some (theme_name t)) ≡ t
unfolding initial_theme
initial_theme-theme_name dark = refl
initial_theme-theme_name light = refl

restart : (s : ThemeState) → IsStored s → start s.stored ≡ s
unfolding start store_theme
restart s (h, k) = rw (h, k, initial_theme-theme_name s.theme) refl

toggle_times-IsStored : (n : ℕ) (s : ThemeState) → IsStored s → IsStored (toggle_times n s)
unfolding toggle_times toggle_theme store_theme
toggle_times-IsStored zero s h = h
toggle_times-IsStored (suc n) s h = toggle_times-IsStored n (toggle_theme s) (refl, refl)

-- Whatever the storage held, after any number of switches a page that is opened anew shows the theme that
-- the last one showed.
pub start-toggle_times :
    (stored : Option String) (n : ℕ)
    → start (toggle_times n (start stored)).stored ≡ toggle_times n (start stored)
unfolding start store_theme
start-toggle_times stored n =
    restart (toggle_times n (start stored)) (toggle_times-IsStored n (start stored) (refl, refl))
