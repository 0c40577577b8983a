-- ===== src/TopUps/Laws.antt =====
-- What the filters of the payments show and offer.
use vpnshiki.Prelude.Dict
use text.Mathlib.TextPositions.{eq_refl}
use vpnshiki.TopUps.{
  all_statuses, only, filtered_payments, has_active_filters, pending_count, succeeded_payments,
  user_options, users_from, matches_payment, TopUpFiltersValue, PaymentStatusFilter, same_status,
}
use vpnshiki.Entities.Payments.{YooMoneyPaymentStatus, AdminYooMoneyPayment}
use vpnshiki.Prelude.{
  some, [], ◌∷◌, true, false, inl, inr, refl, Bool, Option, String, List, ◌≡◌, Bool-cases, filter,
  All, Perm, ap, length, str_eq, ◌∙◌, ◌≤◌, arith,
}
use Prim.Native.Nat.{Ordering}
use vpnshiki.Text.{Text, trim, trim_start}
use vpnshiki.Prelude.Sorting.{sort, sort-perm}

succeeded-le :
    (payments : List AdminYooMoneyPayment) → length (succeeded_payments payments) ≤ length payments
unfolding succeeded_payments
succeeded-le [] = omega arith
succeeded-le (p ∷ ps) = ground (arith, succeeded-le ps)

-- The two counts above the list: a payment that did not succeed is pending.
pub pending_count_lem :
    (payments : List AdminYooMoneyPayment)
    → pending_count payments
      ≡ length (filter (λ p. same_status p.status YooMoneyPaymentStatus.pending) payments)
unfolding pending_count succeeded_payments
pending_count_lem [] = omega arith
pending_count_lem (p ∷ ps) = ground (arith, pending_count_lem ps, succeeded-le ps)

filter_of_all {ℓ} :
    {A : Type ℓ} (p : A → Bool) (xs : List A) → ((x : A) → p x ≡ true) → filter p xs ≡ xs
filter_of_all p [] h = refl
filter_of_all p (x ∷ xs) h = rw (h x) (ap (λ ys. x ∷ ys) (filter_of_all p xs h))

unfiltered-matches :
    (to_lower : Text → Text) (search : Text) (user_id : String) (status : PaymentStatusFilter)
    (payment : AdminYooMoneyPayment)
    → to_lower [] ≡ []
    → has_active_filters (record { search = search; user_id = user_id; status = status }) ≡ false
    → matches_payment to_lower
        (record { search = search; user_id = user_id; status = status })
        payment
      ≡ true
unfolding has_active_filters matches_payment trim trim_start
unfiltered-matches to_lower [] user_id all_statuses payment e h = ground (arith, e)
unfiltered-matches to_lower [] user_id (only s) payment e h = ground arith
unfiltered-matches to_lower (c ∷ s) user_id status payment e h = cc

-- If the button that clears the filters is disabled, every payment is shown; lower case leaves the
-- empty text empty.
pub filtered_payments-unfiltered :
    (to_lower : Text → Text) (value : TopUpFiltersValue) (payments : List AdminYooMoneyPayment)
    → to_lower [] ≡ []
    → has_active_filters value ≡ false
    → filtered_payments to_lower value payments ≡ payments
unfolding filtered_payments
filtered_payments-unfiltered to_lower value payments e h =
    filter_of_all (matches_payment to_lower value) payments
      (λ p. unfiltered-matches to_lower value.search value.user_id value.status p e h)

abbrev pub IsSome {ℓ} : {A : Type ℓ} → Option A → Type ℓ
IsSome {A} o = (a : A) × (o ≡ some a)

IsSome-get-set :
    (k j v : String) (users : List (String × String))
    → IsSome (Dict.get j users)
    → IsSome (Dict.get j (Dict.set k v users))
IsSome-get-set k j v users (a, h) = elim (Bool-cases (str_eq k j)) [
  | inl same ↦ (v, Dict.get-set k j v users ∙ rw same refl)
  | inr other ↦ (a, Dict.get-set k j v users ∙ rw other h)
]

users_from-keeps :
    (j : String) (users : List (String × String)) (payments : List AdminYooMoneyPayment)
    → IsSome (Dict.get j users)
    → IsSome (Dict.get j (users_from users payments))
unfolding users_from
users_from-keeps j users [] h = h
users_from-keeps j users (p ∷ ps) h =
    users_from-keeps j (Dict.set p.user_id p.user_name users) ps
      (IsSome-get-set p.user_id j p.user_name users h)

users_from-covers :
    (users : List (String × String)) (payments : List AdminYooMoneyPayment)
    → All (λ p. IsSome (Dict.get p.user_id (users_from users payments))) payments
unfolding users_from
users_from-covers users [] = tt
users_from-covers users (p ∷ ps) =
    let here : IsSome (Dict.get p.user_id (Dict.set p.user_id p.user_name users)) = (
      p.user_name,
      Dict.get-set p.user_id p.user_id p.user_name users ∙ rw (eq_refl p.user_id) refl,
    ) in
    (
      users_from-keeps p.user_id (Dict.set p.user_id p.user_name users) ps here,
      users_from-covers (Dict.set p.user_id p.user_name users) ps,
    )

users_from-HasDistinctKeys :
    (users : List (String × String)) (payments : List AdminYooMoneyPayment)
    → Dict.HasDistinctKeys users
    → Dict.HasDistinctKeys (users_from users payments)
unfolding users_from
users_from-HasDistinctKeys users [] d = d
users_from-HasDistinctKeys users (p ∷ ps) d =
    users_from-HasDistinctKeys (Dict.set p.user_id p.user_name users) ps
      (Dict.set-HasDistinctKeys p.user_id p.user_name users d)

-- The list of users to filter by offers all of them first, and then, in some order, each user of a payment
-- once: the users' ids differ, and the user of every payment is among them.
pub user_options-exact :
    (compare : String → String → Ordering) (payments : List AdminYooMoneyPayment)
    → (users : List (String × String)) × (sorted : List (String × String)) × (user_options compare
          payments
        ≡ ("all", "Все") ∷ sorted)
      × Perm sorted users
      × Dict.HasDistinctKeys users
      × All (λ p. IsSome (Dict.get p.user_id users)) payments
unfolding user_options
user_options-exact compare payments =
    let users = users_from [] payments in
    (
      users,
      sort (λ left right. compare left.1 right.1) users,
      refl,
      sort-perm (λ left right. compare left.1 right.1) users,
      users_from-HasDistinctKeys [] payments tt,
      users_from-covers [] payments,
    )
