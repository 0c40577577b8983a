-- ===== src/Prelude/Dict.antt =====
-- A JavaScript `Map` with text keys: an association list in the order of insertion.
use Prim.Native.String.{String}
use mathlib.Core.Path.{◌≡◌, refl}
use mathlib.Core.Logic.{◌≢◌, inl, inr}
use mathlib.Core.Option.{Option, none, some}
use mathlib.Core.List.{List, [], ◌∷◌}
use native.Mathlib.Omega.{arith}
use text.Mathlib.Text.{◌==◌}
use text.Mathlib.TextEquality.{eq_iff}
use text.Mathlib.TextPositions.{eq_refl}
use vpnshiki.Prelude.Tests.{if◌then◌else◌, Bool-cases}
use vpnshiki.Prelude.Lists.{All}

module _ {ℓ} {V : Type ℓ} where
  unfoldable pub get : String → List (String × V) → Option V
  get k [] = none
  get k ((j, v) ∷ m) = let rest = get k m in if j == k then some v else rest

  unfoldable pub set : String → V → List (String × V) → List (String × V)
  set k v [] = (k, v) ∷ []
  set k v ((j, w) ∷ m) = let rest = set k v m in if j == k then (j, v) ∷ m else (j, w) ∷ rest

  pub get-set :
      (k j : String) (v : V) (m : List (String × V))
      → get j (set k v m) ≡ (if k == j then some v else get j m)
  unfolding get set
  get-set k j v [] = refl
  get-set k j v ((i, w) ∷ m) = ground (arith, eq_iff k j, eq_iff i k, eq_iff i j, get-set k j v m)

  -- No key of the map is `k`.
  abbrev pub IsFresh : String → List (String × V) → Type 0
  IsFresh k m = All (λ e. e.0 ≢ k) m

  abbrev pub HasDistinctKeys : List (String × V) → Type 0
  HasDistinctKeys [] = Unit
  HasDistinctKeys ((k, v) ∷ m) = IsFresh k m × HasDistinctKeys m

  IsFresh-set :
      (j k : String) (v : V) (m : List (String × V)) → k ≢ j → IsFresh j m → IsFresh j (set k v m)
  unfolding set
  IsFresh-set j k v [] h f = (h, tt)
  IsFresh-set j k v ((i, w) ∷ m) h (n, f) = elim (Bool-cases (i == k)) [
    | inl same ↦ rw same (n, f)
    | inr other ↦ rw other (n, IsFresh-set j k v m h f)
  ]

  pub set-HasDistinctKeys :
      (k : String) (v : V) (m : List (String × V)) → HasDistinctKeys m → HasDistinctKeys (set k v m)
  unfolding set
  set-HasDistinctKeys k v [] d = (tt, tt)
  set-HasDistinctKeys k v ((i, w) ∷ m) (f, d) = elim (Bool-cases (i == k)) [
    | inl same ↦ rw same (f, d)
    | inr other ↦
        rw other
          (IsFresh-set i k v m (λ e. ground (arith, eq_iff i k)) f, set-HasDistinctKeys k v m d)
  ]

  get_of_IsFresh : (k : String) (m : List (String × V)) → IsFresh k m → get k m ≡ none
  unfolding get
  get_of_IsFresh k [] f = refl
  get_of_IsFresh k ((j, v) ∷ m) (n, f) = ground (arith, eq_iff j k, get_of_IsFresh k m f)

  All-get-cons :
      (k : String) (v : V) (whole m : List (String × V))
      → IsFresh k m
      → All (λ e. get e.0 whole ≡ some e.1) m
      → All (λ e. get e.0 ((k, v) ∷ whole) ≡ some e.1) m
  unfolding get
  All-get-cons k v whole [] f h = tt
  All-get-cons k v whole ((j, w) ∷ m) (n, f) (g, h) =
      (ground (arith, eq_iff k j), All-get-cons k v whole m f h)

  -- A map whose keys differ gives back each of its entries.
  pub All-get : (m : List (String × V)) → HasDistinctKeys m → All (λ e. get e.0 m ≡ some e.1) m
  unfolding get
  All-get [] d = tt
  All-get ((k, v) ∷ m) (f, d) = (rw (eq_refl k), All-get-cons k v m m f (All-get m d))
