-- ===== src/Endpoints/Keys.antt =====
-- The keys of the query cache in frontend/src/entities/*/api.ts: what is kept under one key is never taken for
-- something else.
use vpnshiki.Prelude.{
  none, some, [], ◌∷◌, true, false, refl, Bool, List, String, str_eq, ◌≡◌, Option, sym, ◌&&◌,
  if◌then◌else◌, ◌∙◌, ap,
}

pub data Resource : Type 0 where
  admin_users my_daily_charge my_charges my_top_ups admin_payments tariff_plans my_vpn_access :
      Resource
  user_charges user_top_ups user_status_history : (user_id : String) → Resource
  payment : (payment_id : String) → Resource
  plan_billing_history : (plan_id : String) → Resource

unfoldable pub key : Resource → List String
key admin_users = "users" ∷ []
key (user_charges id) = "users" ∷ id ∷ "charges" ∷ []
key (user_top_ups id) = "users" ∷ id ∷ "top-ups" ∷ []
key (user_status_history id) = "users" ∷ id ∷ "status-history" ∷ []
key my_daily_charge = "users" ∷ "me" ∷ "daily-charge" ∷ []
key my_charges = "users" ∷ "me" ∷ "charges" ∷ []
key my_top_ups = "users" ∷ "me" ∷ "top-ups" ∷ []
key (payment id) = "payments" ∷ "yoomoney" ∷ id ∷ []
key admin_payments = "payments" ∷ "yoomoney" ∷ "admin" ∷ []
key tariff_plans = "tariff-plans" ∷ []
key (plan_billing_history id) = "tariff-plans" ∷ id ∷ "billing-history" ∷ []
key my_vpn_access = "vpn-access" ∷ "me" ∷ []

-- What a key is that of.
abbrev user_part : String → String → Option Resource
user_part id part =
    if str_eq id "me"
    then (if str_eq part "daily-charge"
        then some my_daily_charge
        else if str_eq part "charges"
        then some my_charges
        else if str_eq part "top-ups"
        then some my_top_ups
        else none)
    else if str_eq part "charges"
    then some (user_charges id)
    else if str_eq part "top-ups"
    then some (user_top_ups id)
    else if str_eq part "status-history"
    then some (user_status_history id)
    else none

unfoldable pub read_key : List String → Option Resource
read_key (a ∷ []) =
    if str_eq a "users"
    then some admin_users
    else if str_eq a "tariff-plans"
    then some tariff_plans
    else none
read_key (a ∷ b ∷ []) = some my_vpn_access
read_key (a ∷ b ∷ c ∷ []) =
    if str_eq a "users"
    then user_part b c
    else if str_eq a "payments"
    then (if str_eq c "admin" then some admin_payments else some (payment c))
    else some (plan_billing_history b)
read_key _ = none

-- No user has the id `me` and no payment the id `admin`: the server gives UUIDs.
abbrev pub HasServerId : Resource → Type 0
HasServerId (user_charges id) = str_eq id "me" ≡ false
HasServerId (user_top_ups id) = str_eq id "me" ≡ false
HasServerId (user_status_history id) = str_eq id "me" ≡ false
HasServerId (payment id) = str_eq id "admin" ≡ false
HasServerId _ = Unit

read_key-key : (r : Resource) → HasServerId r → read_key (key r) ≡ some r
unfolding read_key key
read_key-key (user_charges id) h = rw h refl
read_key-key (user_top_ups id) h = rw h refl
read_key-key (user_status_history id) h = rw h refl
read_key-key (payment id) h = rw h refl
read_key-key (plan_billing_history id) h = refl
read_key-key admin_users h = refl
read_key-key my_daily_charge h = refl
read_key-key my_charges h = refl
read_key-key my_top_ups h = refl
read_key-key admin_payments h = refl
read_key-key tariff_plans h = refl
read_key-key my_vpn_access h = refl

-- Two resources under one key are the same, if no user has the id `me` and no payment the id `admin`.
pub key-injective : (r t : Resource) → HasServerId r → HasServerId t → key r ≡ key t → r ≡ t
key-injective r t h k same =
    let both : some r ≡ some t = sym (read_key-key r h) ∙ ap read_key same ∙ read_key-key t k in cc

-- `invalidateQueries`: a key is marked stale with every key that it begins.
unfoldable pub is_prefix : List String → List String → Bool
is_prefix [] ys = true
is_prefix (x ∷ xs) [] = false
is_prefix (x ∷ xs) (y ∷ ys) = str_eq x y && is_prefix xs ys

abbrev pub is_of_users : Resource → Bool
is_of_users admin_users = true
is_of_users (user_charges id) = true
is_of_users (user_top_ups id) = true
is_of_users (user_status_history id) = true
is_of_users my_daily_charge = true
is_of_users my_charges = true
is_of_users my_top_ups = true
is_of_users _ = false

-- The refresh of the users page marks as stale what concerns accounts, the own charge of a day and the own
-- histories among it, and nothing else.
pub is_prefix-admin_users : (r : Resource) → is_prefix (key admin_users) (key r) ≡ is_of_users r
unfolding is_prefix key
is_prefix-admin_users admin_users = refl
is_prefix-admin_users my_daily_charge = refl
is_prefix-admin_users my_charges = refl
is_prefix-admin_users my_top_ups = refl
is_prefix-admin_users admin_payments = refl
is_prefix-admin_users tariff_plans = refl
is_prefix-admin_users my_vpn_access = refl
is_prefix-admin_users (user_charges id) = refl
is_prefix-admin_users (user_top_ups id) = refl
is_prefix-admin_users (user_status_history id) = refl
is_prefix-admin_users (payment id) = refl
is_prefix-admin_users (plan_billing_history id) = refl
