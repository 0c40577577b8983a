-- ===== src/Users/Columns.antt =====
-- The columns of the table of accounts in frontend/src/pages/UsersPage/UsersPage.tsx, with their
-- comparators. `collate` is the page's collator.
use Prim.Native.Nat.{compare, Ordering}
use vpnshiki.Prelude.{
  ◌^◌, ℕ, none, some, [], ◌∷◌, suc, true, false, refl, Bool, Option, String, ◌+◌, List,
  if◌then◌else◌, ◌*◌, ◌≡◌, str_eq, All, length, arith,
}
use vpnshiki.Prelude.Int.{ℤ, pos, neg, pos_part, neg_part}
use vpnshiki.Money.{Decimal, number}
use vpnshiki.Entities.Users.{AdminUser, VpnProfile}
use vpnshiki.Ui.DataTable.{DataTableColumn}
use vpnshiki.Text.{codes}
use vpnshiki.Users.StatusHistory.{status_label}
use vpnshiki.Prelude.Sorting.{flip, or_else}

abbrev signed : Bool → ℕ → ℤ
signed true n = neg (pos n)
signed false n = pos n

-- The sign of `left - right`.
unfoldable pub compare_ℤ : ℤ → ℤ → Ordering
compare_ℤ left right = compare (pos_part left + neg_part right) (pos_part right + neg_part left)

unfoldable pub compare_decimals : Decimal → Decimal → Ordering
unfolding compare_ℤ
compare_decimals left right =
    compare_ℤ (signed left.negative (left.digits * 10 ^ right.places))
      (signed right.negative (right.digits * 10 ^ left.places))

abbrev by_decimal : Option Decimal → Option Decimal → Ordering
by_decimal (some left) (some right) = compare_decimals left right
by_decimal _ _ = Ordering.eq

-- `Number(left) - Number(right)`; the sort takes NaN for 0.
unfoldable pub compare_amounts : String → String → Ordering
unfolding number compare_decimals
compare_amounts left right = by_decimal (number (codes left)) (number (codes right))

-- `profiles?.length ?? -1`, plus one.
abbrev profile_rank : Option (List VpnProfile) → ℕ
profile_rank none = 0
profile_rank (some profiles) = suc (length profiles)

-- `tgUserId ? 1 : 0`
abbrev has_id : Option String → ℕ
has_id none = 0
has_id (some id) = if str_eq id "" then 0 else 1

abbrev or_blank : Option String → String
or_blank none = ""
or_blank (some id) = id

module _ (collate : String → String → Ordering) where
  abbrev by_name : AdminUser → AdminUser → Ordering
  by_name left right = collate right.name left.name

  unfoldable pub by_status : AdminUser → AdminUser → Ordering
  unfolding status_label
  by_status left right =
      collate (status_label left.account_status) (status_label right.account_status)

  abbrev by_profiles : AdminUser → AdminUser → Ordering
  by_profiles left right =
      compare (profile_rank left.vpn_profiles) (profile_rank right.vpn_profiles)

  abbrev by_telegram_id : AdminUser → AdminUser → Ordering
  by_telegram_id left right =
      or_else (compare (has_id left.tg_user_id) (has_id right.tg_user_id))
        (collate (or_blank left.tg_user_id) (or_blank right.tg_user_id))

  abbrev column : String → (AdminUser → AdminUser → Ordering) → DataTableColumn AdminUser
  column id order = record { id = id; compare = some order }

  abbrev unsortable : String → DataTableColumn AdminUser
  unsortable id = record { id = id; compare = none }

  unfoldable pub user_columns : List (DataTableColumn AdminUser)
  unfolding by_status compare_amounts
  user_columns =
      unsortable "id"
      ∷ column "name" by_name
      ∷ column "accountStatus" by_status
      ∷ column "vpnProfiles" by_profiles
      ∷ column "balance" (λ left right. compare_amounts left.balance right.balance)
      ∷ column "negativeBalanceLimit"
          (λ left right. compare_amounts left.negative_balance_limit right.negative_balance_limit)
      ∷ column "totalCharged" (λ left right. compare_amounts left.total_charged right.total_charged)
      ∷ column "totalTopUps" (λ left right. compare_amounts left.total_top_ups right.total_top_ups)
      ∷ column "tgUserId" by_telegram_id
      ∷ unsortable "actions"
      ∷ []

-- Two accounts of one comparator, the other way round, compare the other way round.
abbrev pub Flips : Option (AdminUser → AdminUser → Ordering) → Type 0
Flips none = Unit
Flips (some order) = (x y : AdminUser) → order y x ≡ flip (order x y)

compare_ℤ-flip : (a b : ℤ) → compare_ℤ b a ≡ flip (compare_ℤ a b)
unfolding compare_ℤ
compare_ℤ-flip a b = ground arith

by_decimal-flip : (a b : Option Decimal) → by_decimal b a ≡ flip (by_decimal a b)
unfolding compare_decimals
by_decimal-flip none none = refl
by_decimal-flip none (some b) = refl
by_decimal-flip (some a) none = refl
by_decimal-flip (some a) (some b) =
    compare_ℤ-flip (signed a.negative (a.digits * 10 ^ b.places))
      (signed b.negative (b.digits * 10 ^ a.places))

compare_amounts-flip : (x y : String) → compare_amounts y x ≡ flip (compare_amounts x y)
unfolding compare_amounts
compare_amounts-flip x y = by_decimal-flip (number (codes x)) (number (codes y))

-- If the collator gives the opposite sign for its arguments exchanged, so does the comparator of every
-- column of the table, also where an amount is no number.
pub user_columns-flip :
    (collate : String → String → Ordering)
    → ((x y : String) → collate y x ≡ flip (collate x y))
    → All (λ c. Flips c.compare) (user_columns collate)
unfolding user_columns by_status
user_columns-flip collate h = (
  tt,
  (
    λ x y. h y.name x.name,
    (
      λ x y. h (status_label x.account_status) (status_label y.account_status),
      (
        λ x y. ground arith,
        (
          λ x y. compare_amounts-flip x.balance y.balance,
          (
            λ x y. compare_amounts-flip x.negative_balance_limit y.negative_balance_limit,
            (
              λ x y. compare_amounts-flip x.total_charged y.total_charged,
              (
                λ x y. compare_amounts-flip x.total_top_ups y.total_top_ups,
                (
                  λ x y. ground (arith, h (or_blank x.tg_user_id) (or_blank y.tg_user_id)),
                  (tt, tt),
                ),
              ),
            ),
          ),
        ),
      ),
    ),
  ),
)
