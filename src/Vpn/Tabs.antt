-- ===== src/Vpn/Tabs.antt =====
-- frontend/src/pages/OverviewPage/components/VpnAccessPanel/components/ProfileTabs/ProfileTabs.tsx:
-- the tabs of an account with several profiles.
use mathlib.Core.Option
use vpnshiki.Prelude.{
  ℕ, none, some, List, Option, String, Bool, ◌+◌, map, str_eq, ◌%◌, ◌-◌, get_elem?, length,
}
use vpnshiki.Text.{Text}
use vpnshiki.Entities.VpnAccess.{VpnClientProfile}

pub data TabKey : Type 0 where
  arrow_right arrow_left home end_key : TabKey
  other : TabKey

-- `handleKeyDown`: the tab that a key leads to, from tab `index` of `n`. Below 1 the subtraction of
-- the code is made up for by `n`.
unfoldable pub next_index : ℕ → ℕ → TabKey → Option ℕ
next_index n index arrow_right = some ((index + 1) % n)
next_index n index arrow_left = some ((index + n - 1) % n)
next_index n index home = some 0
next_index n index end_key = some (n - 1)
next_index n index other = none

-- `profiles[index].email`: reading the email of no profile throws.
abbrev pub email_at : List VpnClientProfile → ℕ → Option String
email_at profiles i = Option.map (λ p. p.email) (get_elem? profiles i)

abbrev email_at_next : List VpnClientProfile → Option ℕ → Option String
email_at_next profiles none = none
email_at_next profiles (some i) = email_at profiles i

-- The email that `onSelect` is given at a key.
unfoldable pub selected_by_key : List VpnClientProfile → ℕ → TabKey → Option String
unfolding next_index
selected_by_key profiles index key = email_at_next profiles (next_index (length profiles) index key)

pub record Tab : Type 0 where
  pub label : Text
  pub selected : Bool
  pub in_tab_order : Bool

unfoldable pub tab : String → VpnClientProfile → Tab
tab selected_email profile =
    let selected = str_eq profile.email selected_email in
    record { label = profile.label; selected = selected; in_tab_order = selected }

unfoldable pub tabs : String → List VpnClientProfile → List Tab
unfolding tab
tabs selected_email profiles = map (tab selected_email) profiles
