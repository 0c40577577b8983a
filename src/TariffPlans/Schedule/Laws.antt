-- ===== src/TariffPlans/Schedule/Laws.antt =====
-- Which plan ends the one that a form is about.
use vpnshiki.Prelude.{
  ℕ, none, some, [], ◌∷◌, suc, true, false, inl, inr, refl, Bool, List, All, get_elem?, All-mono,
  Option, filter, ◌≡◌, Bool-cases, String, arith,
}
use vpnshiki.Text.{Text}
use vpnshiki.TariffPlans.Schedule.{get_preview_end_date, is_later, by_start, day_before}
use Prim.Native.Nat.{Ordering}
use vpnshiki.Entities.TariffPlans.{TariffPlan}
use vpnshiki.Prelude.Sorting.{
  sort-IsSorted, All-filter, All-of_sort, All-sort, IsConsistent, sort, is_gt, IsSorted,
}
use vpnshiki.TariffPlans.Calendar.{add_calendar_days}
use vpnshiki.Prelude.Int.{negsuc}

-- A value at some place of a list.
abbrev pub IsListed {ℓ} : {A : Type ℓ} → List A → A → Type ℓ
IsListed xs x = (i : ℕ) × (get_elem? xs i ≡ some x)

All-IsListed {ℓ} : {A : Type ℓ} (xs : List A) → All (IsListed xs) xs
All-IsListed [] = tt
All-IsListed (x ∷ xs) = (
  (0, refl),
  All-mono (IsListed xs) (IsListed (x ∷ xs)) (λ y h. (suc h.0, h.1)) xs (All-IsListed xs),
)

All-filter_self {ℓ} :
    {A : Type ℓ} (p : A → Bool) (xs : List A) → All (λ x. p x ≡ true) (filter p xs)
All-filter_self p [] = tt
All-filter_self p (x ∷ xs) = elim (Bool-cases (p x)) [
  | inl kept ↦ rw kept (kept, All-filter_self p xs)
  | inr dropped ↦ rw dropped (All-filter_self p xs)
]

All-of_filter {ℓ κ} :
    {A : Type ℓ} (P : A → Type κ) (p : A → Bool) (xs : List A)
    → All P (filter p xs)
    → All (λ x. p x ≡ true → P x) xs
All-of_filter P p [] h = tt
All-of_filter P p (x ∷ xs) h = elim (Bool-cases (p x)) [
  | inl kept ↦
      let (q, rest) : P x × All P (filter p xs) = rw kept at h in
      ((λ e. q), All-of_filter P p xs rest)
  | inr dropped ↦ ((λ e. absurd (ground arith)), All-of_filter P p xs (rw dropped at h))
]

module _ (compare : Text → Text → Ordering) (start : Text) (editing : Option String)
    (plans : List TariffPlan) where
  -- Of the plans but the edited one that start later, the first.
  pub record IsNext (plan : TariffPlan) : Type 0 where
    pub listed : IsListed plans plan
    pub later : is_later start editing plan ≡ true
    pub first :
        All
          (λ q.
            is_later start editing q ≡ true → is_gt (compare plan.start_date q.start_date) ≡ false)
          plans

  -- What the form shows as the end: nothing if no plan follows, else the day before the next plan.
  pub data PreviewEnd : Option Text → Type 0 where
    endless : All (λ q. is_later start editing q ≡ true → ⊥) plans → PreviewEnd none
    until :
        (plan : TariffPlan)
        → IsNext plan
        → PreviewEnd (some (add_calendar_days plan.start_date (negsuc 0)))

  later_plans : List TariffPlan
  later_plans = filter (is_later start editing) plans

  by_start-IsConsistent : IsConsistent compare → IsConsistent (by_start compare)
  by_start-IsConsistent c = record {
    flips = λ x y. c.flips x.start_date y.start_date;
    trans = λ x y z h k. c.trans x.start_date y.start_date z.start_date h k;
  }

  head-first :
      (plan : TariffPlan) (rest : List TariffPlan)
      → sort (by_start compare) later_plans ≡ plan ∷ rest
      → IsConsistent compare
      → All (λ q. is_gt (compare plan.start_date q.start_date) ≡ false) later_plans
  unfolding later_plans
  head-first plan rest e c =
      let sorted : IsSorted (by_start compare) (plan ∷ rest) =
        rw e at (sort-IsSorted (by_start compare) (by_start-IsConsistent c) later_plans) in
      let itself : is_gt (compare plan.start_date plan.start_date) ≡ false =
        ground (arith, c.flips plan.start_date plan.start_date) in
      All-of_sort (by_start compare) (λ q. is_gt (compare plan.start_date q.start_date) ≡ false)
        later_plans (rw e (itself, sorted.0))

  head-IsNext :
      (plan : TariffPlan) (rest : List TariffPlan)
      → sort (by_start compare) later_plans ≡ plan ∷ rest
      → IsConsistent compare
      → IsNext plan
  unfolding later_plans
  head-IsNext plan rest e c =
      let kept : All (λ q. IsListed plans q) (plan ∷ rest) = rw e at (
        All-sort (by_start compare) (IsListed plans) later_plans (
          All-filter (by_start compare) (IsListed plans) (is_later start editing) plans
            (All-IsListed plans))) in
      let after : All (λ q. is_later start editing q ≡ true) (plan ∷ rest) = rw e at (
        All-sort (by_start compare) (λ q. is_later start editing q ≡ true) later_plans
          (All-filter_self (is_later start editing) plans)) in
      record {
        listed = kept.0;
        later = after.0;
        first =
            All-of_filter (λ q. is_gt (compare plan.start_date q.start_date) ≡ false)
              (is_later start editing) plans (head-first plan rest e c);
      }

  day_before-PreviewEnd :
      (sorted : List TariffPlan)
      → sort (by_start compare) later_plans ≡ sorted
      → IsConsistent compare
      → PreviewEnd (day_before sorted)
  unfolding later_plans day_before
  day_before-PreviewEnd [] e c = endless (
      All-of_filter (λ q. ⊥) (is_later start editing) plans
        (All-of_sort (by_start compare) (λ q. ⊥) later_plans (rw e tt)))
  day_before-PreviewEnd (plan ∷ rest) e c = until plan (head-IsNext plan rest e c)

-- If `localeCompare` is a consistent comparator, a form with a start date shows no end if none of the
-- other plans starts later, and else the day before the start of the first one that does.
pub get_preview_end_date-PreviewEnd :
    (compare : Text → Text → Ordering) (c : ℕ) (s : Text) (editing : Option String)
    (plans : List TariffPlan)
    → IsConsistent compare
    → PreviewEnd compare (c ∷ s) editing plans (get_preview_end_date compare (c ∷ s) plans editing)
unfolding get_preview_end_date later_plans
get_preview_end_date-PreviewEnd compare c s editing plans consistent =
    day_before-PreviewEnd compare (c ∷ s) editing plans
      (sort (by_start compare) (filter (is_later (c ∷ s) editing) plans)) refl consistent
