-- ===== src/History/Grouping.antt =====
-- The loop that sorts entries into a `Map` by a key,
-- `groups.set(key, [...(groups.get(key) ?? []), entry])`, and the sums over its groups.

use mathlib.Core.List.{append_assoc, append-nil, perm_middle, Permᴰ}
use mathlib.Core.List.Perm
use mathlib.Core.Logic.{∥∥₁_elim}
use vpnshiki.Prelude.{
  String, ◌≡◌, refl, sym, ap, ◌∙◌, inl, inr, Option, none, some, List, [], ◌∷◌, ◌++◌, Perm, str_eq,
  eq_iff, arith, Bool-cases, filter, All, filter-append,
}
use vpnshiki.Prelude.Dict
use vpnshiki.Prelude.Dict.{HasDistinctKeys, set-HasDistinctKeys, All-get}
use vpnshiki.Prelude.Int.{ℤ, pos}
use vpnshiki.Money.{◌+?◌, +?_assoc, +?_comm, zero-+?}

-- `?? []`
abbrev pub or_empty {ℓ} : {A : Type ℓ} → Option (List A) → List A
or_empty none = []
or_empty (some xs) = xs

module _ {ℓ} {A : Type ℓ} where
  abbrev pub all_rows : List (String × List A) → List A
  all_rows [] = []
  all_rows ((k, rows) ∷ groups) = rows ++ all_rows groups

module _ {ℓ} {A : Type ℓ} (key : A → String) where
  pub push : A → List (String × List A) → List (String × List A)
  push x groups = Dict.set (key x) (or_empty (Dict.get (key x) groups) ++ x ∷ []) groups

  group_from : List (String × List A) → List A → List (String × List A)
  unfolding push
  group_from groups [] = groups
  group_from groups (x ∷ xs) = group_from (push x groups) xs

  unfoldable pub group_by : List A → List (String × List A)
  unfolding group_from Dict.get Dict.set
  group_by xs = group_from [] xs

  abbrev pub entries_of : String → List A → List A
  entries_of k xs = filter (λ x. str_eq (key x) k) xs

  get-push :
      (k : String) (x : A) (groups : List (String × List A))
      → or_empty (Dict.get k (push x groups))
        ≡ or_empty (Dict.get k groups) ++ entries_of k (x ∷ [])
  unfolding push
  get-push k x groups = ground (
    arith,
    Dict.get-set (key x) k (or_empty (Dict.get (key x) groups) ++ x ∷ []) groups,
    eq_iff (key x) k,
    append-nil (or_empty (Dict.get k groups)),
  )

  get-group_from :
      (k : String) (groups : List (String × List A)) (xs : List A)
      → or_empty (Dict.get k (group_from groups xs))
        ≡ or_empty (Dict.get k groups) ++ entries_of k xs
  unfolding group_from
  get-group_from k groups [] = sym (append-nil _)
  get-group_from k groups (x ∷ xs) =
      get-group_from k (push x groups) xs
      ∙ ap (λ rows. rows ++ entries_of k xs) (get-push k x groups)
      ∙ append_assoc _ (entries_of k (x ∷ [])) (entries_of k xs)
      ∙ ap (λ rows. or_empty (Dict.get k groups) ++ rows)
          (sym (filter-append (λ y. str_eq (key y) k) (x ∷ []) xs))

  push-HasDistinctKeys :
      (x : A) (groups : List (String × List A))
      → HasDistinctKeys groups
      → HasDistinctKeys (push x groups)
  unfolding push
  push-HasDistinctKeys x groups d = set-HasDistinctKeys (key x) _ groups d

  group_from-HasDistinctKeys :
      (groups : List (String × List A)) (xs : List A)
      → HasDistinctKeys groups
      → HasDistinctKeys (group_from groups xs)
  unfolding group_from
  group_from-HasDistinctKeys groups [] d = d
  group_from-HasDistinctKeys groups (x ∷ xs) d =
      group_from-HasDistinctKeys (push x groups) xs (push-HasDistinctKeys x groups d)

  -- No key has two groups.
  pub group_by-HasDistinctKeys : (xs : List A) → HasDistinctKeys (group_by xs)
  unfolding group_by
  group_by-HasDistinctKeys xs = group_from-HasDistinctKeys [] xs tt

  All-exact :
      (groups seen : List (String × List A)) (xs : List A)
      → ((k : String) → or_empty (Dict.get k groups) ≡ entries_of k xs)
      → All (λ g. Dict.get g.0 groups ≡ some g.1) seen
      → All (λ g. g.1 ≡ entries_of g.0 xs) seen
  All-exact groups [] xs spec h = tt
  All-exact groups ((k, rows) ∷ seen) xs spec (found, h) =
      (sym (ap or_empty found) ∙ spec k, All-exact groups seen xs spec h)

  -- A group holds the entries of its key, all of them, in the order of the list.
  pub group_by-exact : (xs : List A) → All (λ g. g.1 ≡ entries_of g.0 xs) (group_by xs)
  unfolding group_by
  group_by-exact xs =
      All-exact (group_by xs) (group_by xs) xs (λ k. get-group_from k [] xs)
        (All-get (group_by xs) (group_by-HasDistinctKeys xs))

  set-perm :
      (k : String) (x : A) (old : List A) (groups : List (String × List A))
      → or_empty (Dict.get k groups) ≡ old
      → Perm (all_rows (Dict.set k (old ++ x ∷ []) groups)) (x ∷ all_rows groups)
  unfolding Dict.get Dict.set
  set-perm k x old [] h = rw (← h) (Perm.refl (x ∷ []))
  set-perm k x old ((j, rows) ∷ groups) h = elim (Bool-cases (str_eq j k)) [
    | inl same ↦
        let kept : rows ≡ old = rw same at h in
        rw (same, ← kept, append_assoc) (perm_middle rows (all_rows groups))
    | inr other ↦ rw other (
        Perm.trans (Perm.append (Perm.refl rows) (set-perm k x old groups (rw other at h)))
          (perm_middle rows (all_rows groups)))
  ]

  group_from-perm :
      (groups : List (String × List A)) (xs : List A)
      → Perm (all_rows (group_from groups xs)) (all_rows groups ++ xs)
  unfolding group_from push
  group_from-perm groups [] = rw append-nil (Perm.refl (all_rows groups))
  group_from-perm groups (x ∷ xs) = Perm.trans (group_from-perm (push x groups) xs) (
      Perm.trans (Perm.append (set-perm (key x) x _ groups refl) (Perm.refl xs))
        (Perm.symm (perm_middle (all_rows groups) xs)))

  -- The groups together hold every entry, as often as the list does.
  pub group_by-perm : (xs : List A) → Perm (all_rows (group_by xs)) xs
  unfolding group_by
  group_by-perm xs = group_from-perm [] xs

module _ {ℓ} {A : Type ℓ} (amount : A → Option ℤ) where
  -- `entries.reduce((total, entry) => total + amount(entry), total)`
  sum_from : Option ℤ → List A → Option ℤ
  sum_from total [] = total
  sum_from total (x ∷ xs) = sum_from (total +? amount x) xs

  unfoldable pub sum : List A → Option ℤ
  unfolding sum_from
  sum xs = sum_from (some (pos 0)) xs

  abbrev total : List A → Option ℤ
  total [] = some (pos 0)
  total (x ∷ xs) = amount x +? total xs

  sum_from-eq-add : (t : Option ℤ) (xs : List A) → sum_from t xs ≡ t +? total xs
  unfolding sum_from
  sum_from-eq-add t [] = sym (+?_comm t _ ∙ zero-+? t)
  sum_from-eq-add t (x ∷ xs) = sum_from-eq-add (t +? amount x) xs ∙ +?_assoc t (amount x) (total xs)

  sum-eq-total : (xs : List A) → sum xs ≡ total xs
  unfolding sum
  sum-eq-total xs = sum_from-eq-add (some (pos 0)) xs ∙ zero-+? (total xs)

  total-append : (xs ys : List A) → total (xs ++ ys) ≡ total xs +? total ys
  total-append [] ys = sym (zero-+? (total ys))
  total-append (x ∷ xs) ys =
      ap (λ t. amount x +? t) (total-append xs ys) ∙ sym (+?_assoc (amount x) (total xs) (total ys))

  total-permᴰ : {xs ys : List A} → Permᴰ xs ys → total xs ≡ total ys
  total-permᴰ Permᴰ.nil = refl
  total-permᴰ (Permᴰ.cons e d) = rw (e, total-permᴰ d)
  total-permᴰ (Permᴰ.swap {a} {b} {l = l} e f) =
      rw (← e, ← f)
        (sym (+?_assoc (amount a) (amount b) (total l))
          ∙ ap (λ t. t +? total l) (+?_comm (amount a) (amount b))
          ∙ +?_assoc (amount b) (amount a) (total l))
  total-permᴰ (Permᴰ.trans d e) = total-permᴰ d ∙ total-permᴰ e

  amounts-set : IsSet (Option ℤ)
  amounts-set = hlevel

  -- The sum of a list is that of each rearrangement.
  pub sum-perm : {xs ys : List A} → Perm xs ys → sum xs ≡ sum ys
  sum-perm {xs} {ys} p =
      sum-eq-total xs ∙ ∥∥₁_elim p (amounts-set _ _) total-permᴰ ∙ sym (sum-eq-total ys)

  -- The sum over the groups of their sums.
  pub grand_total : List (String × List A) → Option ℤ
  grand_total [] = some (pos 0)
  grand_total ((k, rows) ∷ groups) = sum rows +? grand_total groups

  grand_total-eq-total :
      (groups : List (String × List A)) → grand_total groups ≡ total (all_rows groups)
  unfolding grand_total
  grand_total-eq-total [] = refl
  grand_total-eq-total ((k, rows) ∷ groups) =
      ap (λ t. t +? grand_total groups) (sum-eq-total rows)
      ∙ ap (λ t. total rows +? t) (grand_total-eq-total groups)
      ∙ sym (total-append rows (all_rows groups))

  -- Grouping loses no amount and counts none twice.
  pub grand_total-group_by :
      (key : A → String) (xs : List A) → grand_total (group_by key xs) ≡ sum xs
  grand_total-group_by key xs =
      grand_total-eq-total (group_by key xs)
      ∙ sym (sum-eq-total (all_rows (group_by key xs)))
      ∙ sum-perm (group_by-perm key xs)
