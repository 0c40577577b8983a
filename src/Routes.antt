-- ===== src/Routes.antt =====
-- frontend/src/pages/index.tsx: which page an address shows, and whither it is redirected; and the
-- administrator's part of frontend/src/widgets/AppShell. An address stands for the pattern that
-- the router matches it with.
use vpnshiki.Prelude.{
  ℕ, none, some, true, false, zero, suc, Bool, Option, String, if◌then◌else◌, ◌≡◌, arith, refl,
}
use vpnshiki.Session.{AuthStatus, checking, authenticated, unauthenticated}
use vpnshiki.Entities.Users.{UserRole, User}

pub data Address : Type 0 where
  login root admin admin_users admin_tariff_plans admin_top_ups unknown : Address
  payment : String → Address

pub data Page : Type 0 where
  login_page overview users tariff_plans top_ups : Page
  payment_result : String → Page

pub data Element : Type 0 where
  loading : Element
  page : Page → Element
  navigate : Address → Element

abbrev is_admin_role : UserRole → Bool
is_admin_role UserRole.admin = true
is_admin_role UserRole.user = false

-- `user?.role === 'admin'`
abbrev pub is_admin : Option User → Bool
is_admin none = false
is_admin (some u) = is_admin_role u.role

abbrev is_authenticated : AuthStatus → Bool
is_authenticated authenticated = true
is_authenticated _ = false

-- The pages inside the shell.
abbrev admin_only : Option User → Page → Element
admin_only user p = if is_admin user then page p else navigate root

child : Option User → Address → Element
child user root = page overview
child user (payment id) = page (payment_result id)
child user admin = if is_admin user then navigate admin_users else navigate root
child user admin_users = admin_only user users
child user admin_tariff_plans = admin_only user tariff_plans
child user admin_top_ups = admin_only user top_ups
child user login = navigate root
child user unknown = navigate root

signed_out_element : Address → Element
signed_out_element login = page login_page
signed_out_element _ = navigate login

unfoldable pub element : AuthStatus → Option User → Address → Element
unfolding child signed_out_element
element checking user address = loading
element authenticated user address = child user address
element unauthenticated user address = signed_out_element address

-- Redirects are followed one after another; `none` if they are more than `fuel`.
unfoldable pub settle : ℕ → AuthStatus → Option User → Address → Option Element
unfolding element
settle zero status user address = none
settle (suc fuel) status user address = elim (element status user address) [
  | navigate next ↦ settle fuel status user next
  | loading ↦ some loading
  | page p ↦ some (page p)
]

-- Where a visitor ends up, in the words of the requirements: nowhere until the session is checked, at
-- the login unless signed in, and in the administrator's part only as an administrator.
abbrev pub destination : AuthStatus → Option User → Address → Element
destination checking user address = loading
destination unauthenticated user address = page login_page
destination authenticated user (payment id) = page (payment_result id)
destination authenticated user admin = page (if is_admin user then users else overview)
destination authenticated user admin_users = page (if is_admin user then users else overview)
destination authenticated user admin_tariff_plans =
    page (if is_admin user then tariff_plans else overview)
destination authenticated user admin_top_ups = page (if is_admin user then top_ups else overview)
destination authenticated user _ = page overview

-- From every address, following two redirects at most, a visitor arrives where the requirements
-- say: redirects never go round in a circle.
pub settle-eq-destination :
    (fuel : ℕ) (status : AuthStatus) (user : Option User) (address : Address)
    → settle (suc (suc (suc fuel))) status user address ≡ some (destination status user address)
unfolding settle
settle-eq-destination fuel checking user address = refl
settle-eq-destination fuel unauthenticated user login = refl
settle-eq-destination fuel unauthenticated user _ = refl
settle-eq-destination fuel authenticated user admin = ground arith
settle-eq-destination fuel authenticated user _ = ground arith

-- The pages of the administrator's part.
abbrev pub IsAdminPage : Page → Type 0
IsAdminPage users = Unit
IsAdminPage tariff_plans = Unit
IsAdminPage top_ups = Unit
IsAdminPage _ = ⊥

-- Only an administrator who is signed in is ever shown a page of the administrator's part.
pub element-IsAdminPage :
    (status : AuthStatus) (user : Option User) (address : Address) (p : Page)
    → element status user address ≡ page p
    → IsAdminPage p
    → (status ≡ authenticated) × (is_admin user ≡ true)
unfolding element
element-IsAdminPage status user address p e h = ground arith
