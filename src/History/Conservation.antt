-- ===== src/History/Conservation.antt =====
-- What the three windows show against the entries that they are given: which month holds an entry,
-- in which order, and how the months' sums relate to the whole.
use mathlib.Core.List.Perm
use vpnshiki.Prelude.{◌≡◌, ◌∙◌, List, Perm, All}
use vpnshiki.Prelude.Dict.{HasDistinctKeys}
use vpnshiki.Prelude.Sorting.{sort, sort-perm}
use vpnshiki.Locale.{Locale}
use vpnshiki.Entities.Users.{UserCharge}
use vpnshiki.History.Grouping.{
  all_rows, entries_of, grand_total, group_by-HasDistinctKeys, group_by-exact, group_by-perm,
  grand_total-group_by, sum-perm,
}
use vpnshiki.History.Charges.{
  charge_months, charge_cents, compare_charges, by_kind, get_day_key, get_month_key,
  fetched_charges,
}
use vpnshiki.Prelude.Sorting.{IsConsistent}
use Prim.Native.Nat.{Ordering}
use Prim.Native.String
use vpnshiki.Entities.Users.{DailyChargeKind, additional_profiles, tarification}
use vpnshiki.Prelude.Sorting.{is_gt, flip, or_else}
use mathlib.Core.Path.{subst₂}
use vpnshiki.Prelude.{false, ◌≢◌, All-mono, refl, sym}
use vpnshiki.History.BillingRuns.{run_months}
use vpnshiki.History.TopUps.{top_up_months}
use vpnshiki.Prelude.Sorting.{IsSorted, or_else-IsConsistent}
use vpnshiki.Prelude.{String, arith}
use vpnshiki.History.TopUps.{fetched_top_ups}
use vpnshiki.History.BillingRuns.{runs_total}
use vpnshiki.Entities.TariffPlans.{TariffPlanBillingRun}
use vpnshiki.Entities.Users.{UserTopUp}
use vpnshiki.Prelude.Sorting.{on-IsConsistent}
use vpnshiki.History.BillingRuns.{take_chars}
use vpnshiki.History.TopUps.{top_up_cents}
use vpnshiki.History.BillingRuns.{total_charge_in_cents}
use vpnshiki.Prelude.{[], ◌∷◌}
use vpnshiki.Prelude.Sorting.{sort-IsSorted}
use vpnshiki.Prelude.Sorting.{filter-IsSorted}
use vpnshiki.Prelude.{str_eq}

-- The months of the charges differ, each holds exactly the charges of its month in the order of
-- the comparator's sort, and together they hold every charge, as often as it was fetched.
pub charge_months-exact :
    (locale : Locale) (charges : List UserCharge)
    → HasDistinctKeys (charge_months locale charges)
      × All
          (λ m.
            m.1
            ≡ entries_of
                (λ c. get_month_key locale c.created_at)
                m.0
                (sort (compare_charges locale) charges))
          (charge_months locale charges)
      × Perm (all_rows (charge_months locale charges)) charges
unfolding charge_months
charge_months-exact locale charges =
    let ordered = sort (compare_charges locale) charges in
    (
      group_by-HasDistinctKeys _ ordered,
      group_by-exact _ ordered,
      Perm.trans (group_by-perm _ ordered) (sort-perm (compare_charges locale) charges),
    )

-- The sums of the months of charges add up to the sum of all charges that the summary shows.
pub charge_months-total :
    (locale : Locale) (charges : List UserCharge)
    → grand_total charge_cents (charge_months locale charges) ≡ fetched_charges charges
unfolding charge_months fetched_charges
charge_months-total locale charges =
    grand_total-group_by charge_cents _ (sort (compare_charges locale) charges)
    ∙ sum-perm charge_cents (sort-perm (compare_charges locale) charges)

-- The months of the top-ups differ, each holds exactly the top-ups of its month in the order of
-- the server, together they hold every top-up, and their sums add up to the sum of all.
pub top_up_months-exact :
    (locale : Locale) (top_ups : List UserTopUp)
    → HasDistinctKeys (top_up_months locale top_ups)
      × All
          (λ m. m.1 ≡ entries_of (λ t. get_month_key locale t.created_at) m.0 top_ups)
          (top_up_months locale top_ups)
      × Perm (all_rows (top_up_months locale top_ups)) top_ups
      × (grand_total top_up_cents (top_up_months locale top_ups) ≡ fetched_top_ups top_ups)
unfolding top_up_months fetched_top_ups
top_up_months-exact locale top_ups = (
  group_by-HasDistinctKeys _ top_ups,
  group_by-exact _ top_ups,
  group_by-perm _ top_ups,
  grand_total-group_by top_up_cents _ top_ups,
)

-- The months of the billing runs differ, each holds exactly the runs whose date begins with it in
-- the order of the server, together they hold every run, and their sums add up to the sum of all.
pub run_months-exact :
    (runs : List TariffPlanBillingRun)
    → HasDistinctKeys (run_months runs)
      × All (λ m. m.1 ≡ entries_of (λ r. take_chars 7 r.billing_date) m.0 runs) (run_months runs)
      × Perm (all_rows (run_months runs)) runs
      × (grand_total total_charge_in_cents (run_months runs) ≡ runs_total runs)
unfolding run_months runs_total
run_months-exact runs = (
  group_by-HasDistinctKeys _ runs,
  group_by-exact _ runs,
  group_by-perm _ runs,
  grand_total-group_by total_charge_in_cents _ runs,
)

-- The kinds compare consistently.
by_kind-IsConsistent : IsConsistent (λ (x y : UserCharge). by_kind x.kind y.kind)
by_kind-IsConsistent = record { flips = λ x y. ground arith; trans = λ x y z h k. ground arith }

compare_charges-IsConsistent :
    (locale : Locale) → IsConsistent locale.compare → IsConsistent (compare_charges locale)
unfolding compare_charges
compare_charges-IsConsistent locale c =
    or_else-IsConsistent _ _
      (on-IsConsistent (λ (x : UserCharge). get_day_key locale x.created_at) locale.compare c)
      (or_else-IsConsistent _ _ by_kind-IsConsistent
        (on-IsConsistent (λ (x : UserCharge). x.created_at) locale.compare c))

abbrev pub Pairwise {ℓ κ} : {A : Type ℓ} → (A → A → Type κ) → List A → Type κ
Pairwise R [] = Unit
Pairwise R (x ∷ xs) = All (R x) xs × Pairwise R xs

module _ {A : Type 0} (cmp : A → A → Ordering) (key : A → String) (xs : List A) where
  All-IsSorted :
      (groups : List (String × List A))
      → IsSorted cmp xs
      → All (λ g. g.1 ≡ entries_of key g.0 xs) groups
      → All (λ g. IsSorted cmp g.1) groups
  All-IsSorted [] s h = tt
  All-IsSorted ((k, rows) ∷ groups) s (e, h) =
      (rw e (filter-IsSorted cmp (λ x. str_eq (key x) k) xs s), All-IsSorted groups s h)

-- The day of Moscow on which a charge was made.
abbrev moscow_day : Locale → UserCharge → String
moscow_day locale charge =
    let parts = locale.moscow_parts charge.created_at in
    String.◌++◌ parts.year (String.◌++◌ "-" (String.◌++◌ parts.month (String.◌++◌ "-" parts.day)))

-- How a charge may stand before another: on a later day; on the same day, for additional profiles before
-- the tarification; or on the same day, of the same kind and not earlier.
pub data Precedes (locale : Locale) (x y : UserCharge) : Type 0 where
  later_day :
      locale.compare (moscow_day locale x) (moscow_day locale y) ≡ Ordering.gt → Precedes locale x y
  profiles_first :
      locale.compare (moscow_day locale x) (moscow_day locale y) ≡ Ordering.eq
      → x.kind ≡ additional_profiles
      → y.kind ≡ tarification
      → Precedes locale x y
  not_earlier :
      locale.compare (moscow_day locale x) (moscow_day locale y) ≡ Ordering.eq
      → x.kind ≡ y.kind
      → locale.compare x.created_at y.created_at ≢ Ordering.lt
      → Precedes locale x y

Precedes-of_values :
    (locale : Locale) (x y : UserCharge) (a b : DailyChargeKind) (day time : Ordering)
    → locale.compare (moscow_day locale x) (moscow_day locale y) ≡ day
    → x.kind ≡ a
    → y.kind ≡ b
    → locale.compare x.created_at y.created_at ≡ time
    → is_gt (or_else (flip day) (or_else (by_kind a b) (flip time))) ≡ false
    → Precedes locale x y
Precedes-of_values locale x y a b Ordering.gt time d p q t h = later_day d
Precedes-of_values locale x y a b Ordering.lt time d p q t h = cc
Precedes-of_values locale x y additional_profiles tarification Ordering.eq time d p q t h =
    profiles_first d p q
Precedes-of_values locale x y tarification additional_profiles Ordering.eq time d p q t h = cc
Precedes-of_values locale x y additional_profiles additional_profiles Ordering.eq time d p q t h =
    not_earlier d (p ∙ sym q) (ground (arith, t, h))
Precedes-of_values locale x y tarification tarification Ordering.eq time d p q t h =
    not_earlier d (p ∙ sym q) (ground (arith, t, h))

compare_charges-Precedes :
    (locale : Locale) (x y : UserCharge)
    → IsConsistent locale.compare
    → is_gt (compare_charges locale x y) ≡ false
    → Precedes locale x y
unfolding compare_charges
compare_charges-Precedes locale x y c h =
    Precedes-of_values locale x y x.kind y.kind _ _ refl refl refl refl (
      subst₂ (λ d t. is_gt (or_else d (or_else (by_kind x.kind y.kind) t)) ≡ false)
        (c.flips (moscow_day locale x) (moscow_day locale y)) (c.flips x.created_at y.created_at) h)

module _ {A : Type 0} (cmp : A → A → Ordering) (R : A → A → Type 0)
    (relates : (x y : A) → is_gt (cmp x y) ≡ false → R x y) where
  All-relates : (x : A) (ys : List A) → All (λ y. is_gt (cmp x y) ≡ false) ys → All (R x) ys
  All-relates x [] h = tt
  All-relates x (y ∷ ys) h = (relates x y h.0, All-relates x ys h.1)

  IsSorted-Pairwise : (xs : List A) → IsSorted cmp xs → Pairwise R xs
  IsSorted-Pairwise [] s = tt
  IsSorted-Pairwise (x ∷ xs) s = (All-relates x xs s.0, IsSorted-Pairwise xs s.1)

-- If `localeCompare` is a consistent comparator, of any two charges of a month the one above is of a later
-- day of Moscow; or of the same day and for additional profiles, where the other is the tarification; or of
-- the same day and kind and not earlier.
pub charge_months-Precedes :
    (locale : Locale) (charges : List UserCharge)
    → IsConsistent locale.compare
    → All (λ m. Pairwise (Precedes locale) m.1) (charge_months locale charges)
unfolding charge_months
charge_months-Precedes locale charges c =
    let ordered = sort (compare_charges locale) charges in
    All-mono _ _
      (λ m s.
        IsSorted-Pairwise (compare_charges locale) (Precedes locale)
          (λ x y h. compare_charges-Precedes locale x y c h) m.1 s)
      (charge_months locale charges)
      (All-IsSorted (compare_charges locale) _ ordered (charge_months locale charges)
        (sort-IsSorted (compare_charges locale) (compare_charges-IsConsistent locale c) charges)
        (group_by-exact _ ordered))
