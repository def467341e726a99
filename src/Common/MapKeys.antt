-- ===== src/Common/MapKeys.antt =====
-- The keys of a map, and what holds of all its entries.
use mathlib.Core.Path.{◌≡◌, refl, subst}
use mathlib.Core.Logic.{inl, inr}
use mathlib.Core.Bool.{false}
use mathlib.Core.Option.{none, some}
use mathlib.Core.List.{List, [], ◌∷◌, map}
use native.Mathlib.Omega.{arith}
use cascade_feed_ranking_eng.Common.Tests.{Bool-cases}
use cascade_feed_ranking_eng.Common.Int.{ℤ, eq_ℤ, eq_ℤ_iff}
use cascade_feed_ranking_eng.Common.Lists.{All}
use cascade_feed_ranking_eng.Common.Maps.{Map, lookup, insert, has}

module _ {V : Type 0} where
  abbrev pub keys : Map V → List ℤ
  keys m = map (λ e. e.0) m

  pub lookup-absent : (k : ℤ) (m : Map V) → has k (keys m) ≡ false → lookup k m ≡ none
  unfolding has lookup
  lookup-absent k [] h = refl
  lookup-absent k ((j, u) ∷ m) h = ground (arith, lookup-absent k m)

  module _ (P : ℤ → V → Type 0) where
    -- Every entry of the map has the property.
    abbrev pub Entries : Map V → Type 0
    Entries m = All (λ e. P e.0 e.1) m

    pub Entries-insert : (k : ℤ) (v : V) (m : Map V) → P k v → Entries m → Entries (insert k v m)
    unfolding insert
    Entries-insert k v [] p h = (p, tt)
    Entries-insert k v ((j, u) ∷ m) p h = elim (Bool-cases (eq_ℤ j k)) [
      | inl here ↦ rw (here, insert) (p, h.1)
      | inr below ↦ rw (below, insert) (h.0, Entries-insert k v m p h.1)
    ]

    pub Entries-lookup : (k : ℤ) (v : V) (m : Map V) → Entries m → lookup k m ≡ some v → P k v
    unfolding lookup
    Entries-lookup k v [] h found = cc
    Entries-lookup k v ((j, u) ∷ m) h found = elim (Bool-cases (eq_ℤ j k)) [
      | inl here ↦
          let same_key : j ≡ k = (eq_ℤ_iff j k).0 here in
          let same_value : u ≡ v = ground arith in
          subst (λ x. P k x) same_value (subst (λ x. P x u) same_key h.0)
      | inr below ↦ Entries-lookup k v m h.1 (ground arith)
    ]
