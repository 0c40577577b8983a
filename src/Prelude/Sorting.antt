-- ===== src/Prelude/Sorting.antt =====
-- `Array.prototype.sort` with a comparator, of which it reads the sign alone: a stable sort.
use Prim.Native.Nat.{Ordering}
use mathlib.Core.Path.{◌≡◌, refl}
use mathlib.Core.Logic.{inl, inr}
use mathlib.Core.Bool.{Bool, true, false}
use mathlib.Core.List.{List, [], ◌∷◌, Perm}
use mathlib.Core.List.Perm
use native.Mathlib.Omega.{arith}
use vpnshiki.Prelude.Tests.{if◌then◌else◌, Bool-cases}
use vpnshiki.Prelude.Lists.{filter, All}

-- The sign of `compare(left, right) * -1`.
abbrev pub flip : Ordering → Ordering
flip Ordering.lt = Ordering.gt
flip Ordering.eq = Ordering.eq
flip Ordering.gt = Ordering.lt

abbrev pub is_gt : Ordering → Bool
is_gt Ordering.gt = true
is_gt _ = false

module _ {ℓ} {A : Type ℓ} (cmp : A → A → Ordering) where
  insert : A → List A → List A
  insert x [] = x ∷ []
  insert x (y ∷ ys) = let rest = insert x ys in if is_gt (cmp x y) then y ∷ rest else x ∷ y ∷ ys

  unfoldable pub sort : List A → List A
  unfolding insert
  sort [] = []
  sort (x ∷ xs) = insert x (sort xs)

  -- What the language asks of a comparator, for the order of the result to be fixed.
  pub record IsConsistent : Type ℓ where
    pub flips : (x y : A) → cmp y x ≡ flip (cmp x y)
    pub trans :
        (x y z : A) → is_gt (cmp x y) ≡ false → is_gt (cmp y z) ≡ false → is_gt (cmp x z) ≡ false

  abbrev pub IsSorted : List A → Type ℓ
  IsSorted [] = Unit
  IsSorted (x ∷ xs) = All (λ y. is_gt (cmp x y) ≡ false) xs × IsSorted xs

  insert-perm : (x : A) (ys : List A) → Perm (insert x ys) (x ∷ ys)
  unfolding insert
  insert-perm x [] = Perm.refl (x ∷ [])
  insert-perm x (y ∷ ys) = elim (Bool-cases (is_gt (cmp x y))) [
    | inl later ↦ rw later (Perm.trans (Perm.cons y (insert-perm x ys)) (Perm.swap x y ys))
    | inr now ↦ rw now (Perm.refl (x ∷ y ∷ ys))
  ]

  pub sort-perm : (xs : List A) → Perm (sort xs) xs
  unfolding sort
  sort-perm [] = Perm.refl []
  sort-perm (x ∷ xs) = Perm.trans (insert-perm x (sort xs)) (Perm.cons x (sort-perm xs))

  All-insert {κ} : (P : A → Type κ) (x : A) (ys : List A) → P x → All P ys → All P (insert x ys)
  unfolding insert
  All-insert P x [] p h = (p, tt)
  All-insert P x (y ∷ ys) p (q, h) = elim (Bool-cases (is_gt (cmp x y))) [
    | inl later ↦ rw later (q, All-insert P x ys p h)
    | inr now ↦ rw now (p, (q, h))
  ]

  All-after :
      IsConsistent
      → (x y : A) (ys : List A) → is_gt (cmp x y) ≡ false
      → All (λ z. is_gt (cmp y z) ≡ false) ys
      → All (λ z. is_gt (cmp x z) ≡ false) ys
  All-after c x y [] h k = tt
  All-after c x y (z ∷ ys) h (k, ks) = (c.trans x y z h k, All-after c x y ys h ks)

  before_of_after : IsConsistent → (x y : A) → is_gt (cmp x y) ≡ true → is_gt (cmp y x) ≡ false
  before_of_after c x y h = ground (arith, c.flips x y)

  insert-IsSorted : IsConsistent → (x : A) (ys : List A) → IsSorted ys → IsSorted (insert x ys)
  unfolding insert
  insert-IsSorted c x [] s = (tt, tt)
  insert-IsSorted c x (y ∷ ys) (h, s) = elim (Bool-cases (is_gt (cmp x y))) [
    | inl later ↦ rw later (
      All-insert (λ z. is_gt (cmp y z) ≡ false) x ys (before_of_after c x y later) h,
      insert-IsSorted c x ys s,
    )
    | inr now ↦ rw now ((now, All-after c x y ys now h), (h, s))
  ]

  pub sort-IsSorted : IsConsistent → (xs : List A) → IsSorted (sort xs)
  unfolding sort
  sort-IsSorted c [] = tt
  sort-IsSorted c (x ∷ xs) = insert-IsSorted c x (sort xs) (sort-IsSorted c xs)

  module _ (p : A → Bool)
      (ties : (x y : A) → p x ≡ true → p y ≡ true → is_gt (cmp x y) ≡ false) where
    filter-insert : (x : A) (ys : List A) → filter p (insert x ys) ≡ filter p (x ∷ ys)
    unfolding insert
    filter-insert x [] = refl
    filter-insert x (y ∷ ys) = ground (arith, filter-insert x ys, ties x y)

    -- Elements that the comparator ties keep the order in which they stood.
    pub filter-sort : (xs : List A) → filter p (sort xs) ≡ filter p xs
    unfolding sort
    filter-sort [] = refl
    filter-sort (x ∷ xs) = ground (arith, filter-insert x (sort xs), filter-sort xs)

  pub All-filter {κ} :
      (P : A → Type κ) (p : A → Bool) (xs : List A) → All P xs → All P (filter p xs)
  All-filter P p [] h = tt
  All-filter P p (x ∷ xs) (q, h) = elim (Bool-cases (p x)) [
    | inl kept ↦ rw kept (q, All-filter P p xs h)
    | inr dropped ↦ rw dropped (All-filter P p xs h)
  ]

  pub All-sort {κ} : (P : A → Type κ) (xs : List A) → All P xs → All P (sort xs)
  unfolding sort
  All-sort P [] h = tt
  All-sort P (x ∷ xs) (p, h) = All-insert P x (sort xs) p (All-sort P xs h)

  All-of_insert {κ} : (P : A → Type κ) (x : A) (ys : List A) → All P (insert x ys) → P x × All P ys
  unfolding insert
  All-of_insert P x [] h = h
  All-of_insert P x (y ∷ ys) h = elim (Bool-cases (is_gt (cmp x y))) [
    | inl later ↦
        let (q, rest) : P y × All P (insert x ys) = rw later at h in
        let (p, tail) = All-of_insert P x ys rest in (p, (q, tail))
    | inr now ↦ rw now at h
  ]

  pub All-of_sort {κ} : (P : A → Type κ) (xs : List A) → All P (sort xs) → All P xs
  unfolding sort
  All-of_sort P [] h = tt
  All-of_sort P (x ∷ xs) h =
      let (p, rest) = All-of_insert P x (sort xs) h in (p, All-of_sort P xs rest)

  pub filter-IsSorted : (p : A → Bool) (xs : List A) → IsSorted xs → IsSorted (filter p xs)
  filter-IsSorted p [] s = tt
  filter-IsSorted p (x ∷ xs) (h, s) = elim (Bool-cases (p x)) [
    | inl kept ↦ rw kept (All-filter _ p xs h, filter-IsSorted p xs s)
    | inr dropped ↦ rw dropped (filter-IsSorted p xs s)
  ]

-- `if (order !== 0) return order; return next`
abbrev pub or_else : Ordering → Ordering → Ordering
or_else Ordering.eq next = next
or_else order next = order

module _ {ℓ} {A : Type ℓ} where
  -- One comparator after another keeps consistency.
  pub or_else-IsConsistent :
      (c d : A → A → Ordering)
      → IsConsistent c
      → IsConsistent d
      → IsConsistent (λ x y. or_else (c x y) (d x y))
  or_else-IsConsistent c d p q = record {
    flips = λ x y. ground (arith, p.flips x y, q.flips x y);
    trans = λ x y z h k. ground (
      arith,
      p.flips x y,
      p.flips y z,
      p.flips x z,
      p.trans x y z,
      p.trans y z x,
      p.trans z x y,
      q.trans x y z,
    );
  }

  -- So does comparing the images under a function, the other way round.
  pub on-IsConsistent {κ} :
      {B : Type κ} (f : A → B) (c : B → B → Ordering)
      → IsConsistent c
      → IsConsistent (λ x y. c (f y) (f x))
  on-IsConsistent f c p = record {
    flips = λ x y. p.flips (f y) (f x);
    trans = λ x y z h k. p.trans (f z) (f y) (f x) k h;
  }
