-- ===== src/TopUps.antt =====
-- frontend/src/pages/TopUpsPage: the administrator's list of payments, with its filters.
-- `to_lower` is `toLocaleLowerCase('ru-RU')`, and `compare` the page's collator.
pub mod Details
pub mod Filters
pub mod Page
pub mod Laws
pub mod Columns
use vpnshiki.Prelude.Dict
use vpnshiki.Entities.Payments.{YooMoneyPaymentStatus, AdminYooMoneyPayment}
use vpnshiki.Prelude.{
  ℕ, none, some, [], ◌∷◌, zero, suc, true, false, inl, inr, refl, Bool, List, Option, String,
  filter, length, not, if◌then◌else◌, str_eq, ◌++◌, ◌-◌, ◌||◌, ◌&&◌,
}
use vpnshiki.Text.{Text, trim, codes, includes, is_empty}
use vpnshiki.Prelude.Sorting.{sort}
use Prim.Native.Nat.{Ordering}

pub data PaymentStatusFilter : Type 0 where
  all_statuses : PaymentStatusFilter
  only : YooMoneyPaymentStatus → PaymentStatusFilter

pub record TopUpFiltersValue : Type 0 where
  pub search : Text
  pub user_id : String
  pub status : PaymentStatusFilter

-- `resetFilters`, which is also what the page starts with.
abbrev pub no_filters : TopUpFiltersValue
no_filters = record { search = []; user_id = "all"; status = all_statuses }

abbrev is_all_statuses : PaymentStatusFilter → Bool
is_all_statuses all_statuses = true
is_all_statuses (only s) = false

-- `hasActiveFilters`, without which the button that clears them is disabled.
unfoldable pub has_active_filters : TopUpFiltersValue → Bool
has_active_filters value =
    not (is_empty value.search)
    || not (str_eq value.user_id "all")
    || not (is_all_statuses value.status)

abbrev or_blank : Option String → Text
or_blank none = []
or_blank (some id) = codes id

abbrev pub same_status : YooMoneyPaymentStatus → YooMoneyPaymentStatus → Bool
same_status YooMoneyPaymentStatus.pending YooMoneyPaymentStatus.pending = true
same_status YooMoneyPaymentStatus.succeeded YooMoneyPaymentStatus.succeeded = true
same_status _ _ = false

abbrev pub matches_status : PaymentStatusFilter → YooMoneyPaymentStatus → Bool
matches_status all_statuses status = true
matches_status (only wanted) status = same_status status wanted

-- `[user_name, id, label, operation_id ?? ''].join(' ')`
unfoldable pub searchable : AdminYooMoneyPayment → Text
searchable payment =
    codes payment.user_name
    ++ b' ' ∷ codes payment.id
    ++ b' ' ∷ codes payment.label
    ++ b' ' ∷ or_blank payment.operation_id

unfoldable pub matches_payment : (Text → Text) → TopUpFiltersValue → AdminYooMoneyPayment → Bool
unfolding trim includes searchable
matches_payment to_lower value payment =
    let query = to_lower (trim value.search) in
    let matches_user = str_eq value.user_id "all" || str_eq payment.user_id value.user_id in
    (is_empty query || includes (to_lower (searchable payment)) query)
    && matches_user
    && matches_status value.status payment.status

unfoldable pub filtered_payments :
    (Text → Text) → TopUpFiltersValue → List AdminYooMoneyPayment → List AdminYooMoneyPayment
unfolding matches_payment
filtered_payments to_lower value payments = filter (matches_payment to_lower value) payments

-- `new Map(payments.map(…))`: a user's last name counts, in the place of the first.
users_from : List (String × String) → List AdminYooMoneyPayment → List (String × String)
unfolding Dict.set
users_from users [] = users
users_from users (payment ∷ payments) =
    users_from (Dict.set payment.user_id payment.user_name users) payments

-- Values with their labels.
unfoldable pub user_options :
    (String → String → Ordering) → List AdminYooMoneyPayment → List (String × String)
unfolding users_from sort
user_options compare payments =
    ("all", "Все") ∷ sort (λ left right. compare left.1 right.1) (users_from [] payments)

abbrev is_succeeded : AdminYooMoneyPayment → Bool
is_succeeded payment = same_status payment.status YooMoneyPaymentStatus.succeeded

unfoldable pub succeeded_payments : List AdminYooMoneyPayment → List AdminYooMoneyPayment
succeeded_payments payments = filter is_succeeded payments

unfoldable pub pending_count : List AdminYooMoneyPayment → ℕ
unfolding succeeded_payments
pending_count payments = length payments - length (succeeded_payments payments)

-- A click on the button of a row's details.
abbrev is_expanded : Option String → String → Bool
is_expanded none id = false
is_expanded (some open_id) id = str_eq open_id id

unfoldable pub toggle_details : Option String → String → Option String
toggle_details expanded id = if is_expanded expanded id then none else some id
