-- ===== src/Endpoints.antt =====
-- frontend/src/entities/user/api.ts, payment/api.ts, tariffPlan/api.ts and vpnAccess/api.ts: the path and the method of each
-- request, and the keys under which the query cache keeps what came.
pub mod Keys
use vpnshiki.Prelude.{
  ℕ, none, some, [], ◌∷◌, zero, suc, true, false, inl, inr, refl, Bool, String, ◌++◌, ◌≡◌,
}
use vpnshiki.Text.{Text, starts_with, codes}

pub data Method : Type 0 where
  get post patch delete : Method

-- The requests with the ids that their paths name; the bodies are those of the forms.
pub data Endpoint : Type 0 where
  get_current_user login logout get_my_daily_charge get_my_charges get_my_top_ups : Endpoint
  activate_my_account change_my_password get_users create_user : Endpoint
  get_user_charges get_user_top_ups get_user_status_history : (user_id : Text) → Endpoint
  update_user delete_user reset_user_password : (id : Text) → Endpoint
  create_yoo_money_payment get_admin_yoo_money_payments : Endpoint
  get_yoo_money_payment reconcile_yoo_money_payment : (payment_id : Text) → Endpoint
  get_tariff_plans create_tariff_plan : Endpoint
  get_tariff_plan_billing_history update_tariff_plan delete_tariff_plan : (id : Text) → Endpoint
  get_my_vpn_access : Endpoint

abbrev between : String → Text → String → Text
between before id after = codes before ++ id ++ codes after

unfoldable pub request : Endpoint → Method × Text
request get_current_user = (get, codes "auth/me")
request login = (post, codes "auth/login")
request logout = (post, codes "auth/logout")
request get_my_daily_charge = (get, codes "users/me/daily-charge")
request get_my_charges = (get, codes "users/me/charges")
request get_my_top_ups = (get, codes "users/me/top-ups")
request activate_my_account = (post, codes "users/me/activation")
request change_my_password = (post, codes "users/me/password")
request get_users = (get, codes "admin/users")
request create_user = (post, codes "admin/users")
request (get_user_charges id) = (get, between "admin/users/" id "/charges")
request (get_user_top_ups id) = (get, between "admin/users/" id "/top-ups")
request (get_user_status_history id) = (get, between "admin/users/" id "/status-history")
request (update_user id) = (patch, between "admin/users/" id "")
request (delete_user id) = (delete, between "admin/users/" id "")
request (reset_user_password id) = (post, between "admin/users/" id "/password")
request create_yoo_money_payment = (post, codes "users/me/top-up-payments")
request get_admin_yoo_money_payments = (get, codes "admin/top-up-payments")
request (get_yoo_money_payment id) = (get, between "users/me/top-up-payments/" id "")
request (reconcile_yoo_money_payment id) =
    (post, between "users/me/top-up-payments/" id "/reconcile")
request get_tariff_plans = (get, codes "admin/tariff-plans")
request create_tariff_plan = (post, codes "admin/tariff-plans")
request (get_tariff_plan_billing_history id) =
    (get, between "admin/tariff-plans/" id "/billing-history")
request (update_tariff_plan id) = (patch, between "admin/tariff-plans/" id "")
request (delete_tariff_plan id) = (delete, between "admin/tariff-plans/" id "")
request get_my_vpn_access = (get, codes "users/me/vpn")

-- The requests that an administrator's pages alone make.
abbrev pub is_administrative : Endpoint → Bool
is_administrative get_users = true
is_administrative create_user = true
is_administrative (get_user_charges id) = true
is_administrative (get_user_top_ups id) = true
is_administrative (get_user_status_history id) = true
is_administrative (update_user id) = true
is_administrative (delete_user id) = true
is_administrative (reset_user_password id) = true
is_administrative get_admin_yoo_money_payments = true
is_administrative get_tariff_plans = true
is_administrative create_tariff_plan = true
is_administrative (get_tariff_plan_billing_history id) = true
is_administrative (update_tariff_plan id) = true
is_administrative (delete_tariff_plan id) = true
is_administrative _ = false

-- Exactly the requests of the administrator's pages go to a path under `admin/`, whatever the ids.
pub request-starts_with :
    (e : Endpoint) → starts_with (request e).1 (codes "admin/") ≡ is_administrative e
unfolding request starts_with
request-starts_with get_current_user = refl
request-starts_with login = refl
request-starts_with logout = refl
request-starts_with get_my_daily_charge = refl
request-starts_with get_my_charges = refl
request-starts_with get_my_top_ups = refl
request-starts_with activate_my_account = refl
request-starts_with change_my_password = refl
request-starts_with get_users = refl
request-starts_with create_user = refl
request-starts_with create_yoo_money_payment = refl
request-starts_with get_admin_yoo_money_payments = refl
request-starts_with get_tariff_plans = refl
request-starts_with create_tariff_plan = refl
request-starts_with get_my_vpn_access = refl
request-starts_with (get_user_charges id) = refl
request-starts_with (get_user_top_ups id) = refl
request-starts_with (get_user_status_history id) = refl
request-starts_with (update_user id) = refl
request-starts_with (delete_user id) = refl
request-starts_with (reset_user_password id) = refl
request-starts_with (get_yoo_money_payment id) = refl
request-starts_with (reconcile_yoo_money_payment id) = refl
request-starts_with (get_tariff_plan_billing_history id) = refl
request-starts_with (update_tariff_plan id) = refl
request-starts_with (delete_tariff_plan id) = refl
