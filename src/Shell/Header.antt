-- ===== src/Shell/Header.antt =====
-- frontend/src/widgets/AppShell/AppShell.tsx with its AppHeader and AdminSidebar: the links around a page.
-- Paths are texts; `path` is the path of an address of the routes.
use vpnshiki.Shell.Theme.{dark, light, Theme}
use vpnshiki.Routes.{
  login, root, admin, admin_users, admin_tariff_plans, admin_top_ups, payment, unknown, IsAdminPage,
  Address, users, Page, element, is_admin, page, navigate, overview, payment_result, tariff_plans,
  top_ups,
}
use vpnshiki.Prelude.{
  none, some, [], ◌∷◌, true, false, refl, List, Option, String, Bool, if◌then◌else◌, ◌||◌, ◌&&◌,
  ◌++◌, ◌≡◌, ◌↔◌, arith, subst, sym,
}
use vpnshiki.Text.{text_eq, Text, starts_with, codes}
use vpnshiki.Entities.Users.{User}
use vpnshiki.Session.{authenticated}

-- `location.pathname === '/admin' || location.pathname.startsWith('/admin/')`
unfoldable pub in_admin_panel : Text → Bool
unfolding text_eq starts_with
in_admin_panel pathname =
    text_eq pathname (codes "/admin") || starts_with pathname (codes "/admin/")

unfoldable pub show_admin_sidebar : Option User → Text → Bool
unfolding in_admin_panel
show_admin_sidebar user pathname = is_admin user && in_admin_panel pathname

-- Where the link of the header leads, which only an administrator has.
unfoldable pub admin_link : Option User → Text → Option Text
unfolding in_admin_panel
admin_link user pathname =
    if is_admin user
    then some (if in_admin_panel pathname then codes "/" else codes "/admin/users")
    else none

unfoldable pub sidebar_links : List (Text × String)
sidebar_links =
    (codes "/admin/users", "Пользователи")
    ∷ (codes "/admin/tariff-plans", "Тарифные планы")
    ∷ (codes "/admin/top-ups", "Пополнения")
    ∷ []

abbrev pub theme_label : Theme → String
theme_label dark = "Включить светлую тему"
theme_label light = "Включить тёмную тему"

-- The paths that the routes name; no route names the path of another address.
abbrev pub path : Address → Text
path login = codes "/login"
path root = codes "/"
path admin = codes "/admin"
path admin_users = codes "/admin/users"
path admin_tariff_plans = codes "/admin/tariff-plans"
path admin_top_ups = codes "/admin/top-ups"
path (payment id) = codes "/payments/" ++ codes id
path unknown = []

same_page : {q p : Page} → page q ≡ page p → q ≡ p
same_page h = cc

outside :
    (b : Bool) (q p : Page)
    → page q ≡ page p
    → ¬ IsAdminPage q
    → ((b && false) ≡ true) ↔ IsAdminPage p
outside b q p h n =
    (λ k. ground (arith, k), λ k. absurd (n (subst IsAdminPage (sym (same_page h)) k)))

inside :
    (b : Bool) (q p : Page)
    → IsAdminPage q
    → (if b then page q else navigate root) ≡ page p
    → ((b && true) ≡ true) ↔ IsAdminPage p
inside true q p a h = (λ k. subst IsAdminPage (same_page h) a, λ k. refl)
inside false q p a h = cc

redirected :
    (b : Bool) (p : Page)
    → (if b then navigate admin_users else navigate root) ≡ page p
    → ((b && true) ≡ true) ↔ IsAdminPage p
redirected true p h = cc
redirected false p h = cc

-- A page of the administrator's part that is shown has the sidebar beside it, and a page of the shell that has it is
-- of the administrator's part.
pub show_admin_sidebar_iff :
    (user : Option User) (address : Address) (p : Page)
    → element authenticated user address ≡ page p
    → (show_admin_sidebar user (path address) ≡ true) ↔ IsAdminPage p
unfolding element show_admin_sidebar
show_admin_sidebar_iff user login p h = cc
show_admin_sidebar_iff user unknown p h = cc
show_admin_sidebar_iff user root p h = outside (is_admin user) overview p h (λ x. x)
show_admin_sidebar_iff user (payment id) p h =
    outside (is_admin user) (payment_result id) p h (λ x. x)
show_admin_sidebar_iff user admin p h = redirected (is_admin user) p h
show_admin_sidebar_iff user admin_users p h = inside (is_admin user) users p tt h
show_admin_sidebar_iff user admin_tariff_plans p h = inside (is_admin user) tariff_plans p tt h
show_admin_sidebar_iff user admin_top_ups p h = inside (is_admin user) top_ups p tt h
