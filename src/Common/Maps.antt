-- ===== src/Common/Maps.antt =====
-- Go's `map[int64]V` and `map[int64]struct{}` as association lists and lists of keys.
use mathlib.Core.Path.{◌≡◌, refl}
use mathlib.Core.Bool.{Bool, false, ◌||◌}
use mathlib.Core.Option.{Option, none, some}
use mathlib.Core.List.{List, [], ◌∷◌, ◌++◌}
use native.Mathlib.Omega.{arith}
use cascade_feed_ranking_eng.Common.Tests.{if◌then◌else◌}
use cascade_feed_ranking_eng.Common.Int.{ℤ, eq_ℤ, eq_ℤ_iff}

-- `_, ok := set[id]`
unfoldable pub has : ℤ → List ℤ → Bool
has i [] = false
has i (x ∷ xs) = eq_ℤ x i || has i xs

abbrev pub Distinct : List ℤ → Type 0
Distinct [] = Unit
Distinct (x ∷ xs) = (has x xs ≡ false) × Distinct xs

pub has-append : (i : ℤ) (xs ys : List ℤ) → has i (xs ++ ys) ≡ (has i xs || has i ys)
unfolding has
has-append i [] ys = refl
has-append i (x ∷ xs) ys = ground (arith, has-append i xs ys)

abbrev pub Map : Type 0 → Type 0
Map V = List (ℤ × V)

module _ {V : Type 0} where
  -- `v, ok := m[id]`
  unfoldable pub lookup : ℤ → Map V → Option V
  lookup i [] = none
  lookup i ((k, v) ∷ m) = if eq_ℤ k i then some v else lookup i m

  -- `m[id] = v`
  unfoldable pub insert : ℤ → V → Map V → Map V
  insert i v [] = (i, v) ∷ []
  insert i v ((k, w) ∷ m) = if eq_ℤ k i then (i, v) ∷ m else (k, w) ∷ insert i v m

  pub lookup-insert :
      (i j : ℤ) (v : V) (m : Map V)
      → lookup j (insert i v m) ≡ (if eq_ℤ i j then some v else lookup j m)
  unfolding lookup insert
  lookup-insert i j v [] = refl
  lookup-insert i j v ((k, w) ∷ m) =
      ground (arith, eq_ℤ_iff k i, eq_ℤ_iff k j, eq_ℤ_iff i j, lookup-insert i j v m)
