-- ===== src/TopUps/Filters.antt =====
-- The controls of frontend/src/pages/TopUpsPage/components/TopUpFilters/TopUpFilters.tsx.
use vpnshiki.TopUps.{
  all_statuses, only, TopUpFiltersValue, has_active_filters, PaymentStatusFilter, no_filters,
  is_all_statuses,
}
use vpnshiki.Prelude.{
  [], ◌∷◌, inl, inr, refl, Bool, List, String, if◌then◌else◌, not, ◌≡◌, ◌||◌, str_eq, Bool-cases,
  ap, eq_iff, ◌∙◌, arith,
}
use vpnshiki.Text.{Text, is_empty}
use vpnshiki.Entities.Payments.{YooMoneyPaymentStatus}

-- The options of the second list, with their labels.
unfoldable pub status_options : List (PaymentStatusFilter × String)
status_options =
    (all_statuses, "Все")
    ∷ (only YooMoneyPaymentStatus.pending, "Ожидает")
    ∷ (only YooMoneyPaymentStatus.succeeded, "Зачислен")
    ∷ []

-- Which of the buttons that clear one filter are there, and whether the one that clears all is enabled.
pub record FilterButtons : Type 0 where
  pub clear_search : Bool
  pub clear_user : Bool
  pub clear_status : Bool
  pub clear_all : Bool

unfoldable pub filter_buttons : TopUpFiltersValue → FilterButtons
unfolding has_active_filters
filter_buttons value = record {
  clear_search = not (is_empty value.search);
  clear_user = not (str_eq value.user_id "all");
  clear_status = not (is_all_statuses value.status);
  clear_all = has_active_filters value;
}

pub data FilterEvent : Type 0 where
  search_typed : Text → FilterEvent
  user_chosen : String → FilterEvent
  status_chosen : PaymentStatusFilter → FilterEvent
  search_cleared user_cleared status_cleared all_cleared : FilterEvent

-- A button that is not there, or is disabled, does nothing.
unfoldable pub filter_step : TopUpFiltersValue → FilterEvent → TopUpFiltersValue
unfolding filter_buttons
filter_step value (search_typed text) = record value { search = text }
filter_step value (user_chosen id) = record value { user_id = id }
filter_step value (status_chosen status) = record value { status = status }
filter_step value search_cleared =
    if (filter_buttons value).clear_search then record value { search = [] } else value
filter_step value user_cleared =
    if (filter_buttons value).clear_user then record value { user_id = "all" } else value
filter_step value status_cleared =
    if (filter_buttons value).clear_status then record value { status = all_statuses } else value
filter_step value all_cleared = if (filter_buttons value).clear_all then no_filters else value

abbrev value_of : Text → String → PaymentStatusFilter → TopUpFiltersValue
value_of s u f = record { search = s; user_id = u; status = f }

search_step :
    (s : Text) (u : String) (f : PaymentStatusFilter)
    → filter_step (value_of s u f) search_cleared ≡ value_of [] u f
unfolding filter_step
search_step [] u f = refl
search_step (c ∷ s) u f = refl

-- A filter on the user that is not there is the one that lets all through.
if_all :
    (u : String) (f : PaymentStatusFilter)
    → (if not (str_eq u "all") then value_of [] "all" f else value_of [] u f) ≡ value_of [] "all" f
if_all u f = elim (Bool-cases (str_eq u "all")) [
  | inl all ↦ let same : u ≡ "all" = (eq_iff u "all").0 all in rw (all, same) refl
  | inr some_user ↦ rw some_user refl
]

user_step :
    (u : String) (f : PaymentStatusFilter)
    → filter_step (value_of [] u f) user_cleared ≡ value_of [] "all" f
unfolding filter_step
user_step u f = if_all u f

status_step :
    (f : PaymentStatusFilter) → filter_step (value_of [] "all" f) status_cleared ≡ no_filters
unfolding filter_step
status_step all_statuses = refl
status_step (only status) = refl

all_step :
    (s : Text) (u : String) (f : PaymentStatusFilter)
    → filter_step (value_of s u f) all_cleared ≡ no_filters
unfolding filter_step has_active_filters
all_step (c ∷ s) u f = refl
all_step [] u (only status) = elim (Bool-cases (str_eq u "all")) [
  | inl all ↦ rw all refl
  | inr some_user ↦ rw some_user refl
]
all_step [] u all_statuses = elim (Bool-cases (str_eq u "all")) [
  | inl all ↦ let same : u ≡ "all" = (eq_iff u "all").0 all in rw same refl
  | inr some_user ↦ rw some_user refl
]

-- The button that clears all is enabled exactly if one of the others is there; it does what the three others do one after
-- another, and with no button left the filters are those the page starts with.
pub filter_step-all_cleared :
    (value : TopUpFiltersValue)
    → let buttons = filter_buttons value in
      (buttons.clear_all ≡ (buttons.clear_search || buttons.clear_user || buttons.clear_status))
      × (filter_step value all_cleared ≡ no_filters)
      × (filter_step (filter_step (filter_step value search_cleared) user_cleared) status_cleared
          ≡ no_filters)
unfolding filter_buttons has_active_filters
filter_step-all_cleared value = (
  ground arith,
  all_step value.search value.user_id value.status,
  ap (λ v. filter_step (filter_step v user_cleared) status_cleared)
        (search_step value.search value.user_id value.status)
      ∙ ap (λ v. filter_step v status_cleared) (user_step value.user_id value.status)
      ∙ status_step value.status,
)
