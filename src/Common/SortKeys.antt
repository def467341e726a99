-- ===== src/Common/SortKeys.antt =====
-- Sorted and cut lists seen through an integer key of their elements.
use Prim.Native.Nat.{ℕ, zero, suc}
use mathlib.Core.Path.{ap, subst, ◌≡◌, refl, ◌∙◌}
use mathlib.Core.Logic.{inl, inr}
use mathlib.Core.Bool.{Bool, true, false, ◌||◌}
use mathlib.Core.List.{List, [], ◌∷◌, ◌++◌, map, map-append, Memᴰ}
use native.Mathlib.Omega.{arith}
use cascade_feed_ranking_eng.Common.Tests.{Bool-cases}
use cascade_feed_ranking_eng.Common.Int.{eq_ℤ_refl, ℤ, eq_ℤ, eq_ℤ_iff, eq_ℤ_comm}
use cascade_feed_ranking_eng.Common.Lists.{take, drop, All, All-take, All-drop, take-append-drop}
use cascade_feed_ranking_eng.Common.Maps.{has, Distinct, has-append}
use cascade_feed_ranking_eng.Common.Sort.{insert_sorted, sort_slice, SortedBy}

pub Distinct-append :
    (xs ys : List ℤ)
    → Distinct xs
    → Distinct ys
    → ((i : ℤ) → has i xs ≡ true → has i ys ≡ false)
    → Distinct (xs ++ ys)
unfolding has
Distinct-append [] ys dx dy apart = dy
Distinct-append (x ∷ xs) ys dx dy apart = (
  ground (arith, has-append x xs ys, apart x, eq_ℤ_iff x x),
  Distinct-append xs ys dx.1 dy (λ i h. apart i (ground arith)),
)

pub has-Mem :
    {A : Type 0} (key : A → ℤ) (x : A) (l : List A) → Memᴰ x l → has (key x) (map key l) ≡ true
unfolding has
has-Mem key x [] m = elim m [ ]
has-Mem key x (y ∷ l) (Memᴰ.head same) = rw (ap key same, eq_ℤ_refl) refl
has-Mem key x (y ∷ l) (Memᴰ.tail m) = rw (has-Mem key x l m) (ground arith)

-- All elements are in another list, and what that says of one of them.
pub All-has :
    (xs ids : List ℤ)
    → ((i : ℤ) → has i xs ≡ true → has i ids ≡ true)
    → All (λ i. has i ids ≡ true) xs
unfolding has
All-has [] ids h = tt
All-has (x ∷ xs) ids h =
    (h x (ground (arith, eq_ℤ_refl x)), All-has xs ids (λ i k. h i (ground arith)))

pub has-subset :
    (i : ℤ) (xs ids : List ℤ) → All (λ j. has j ids ≡ true) xs → has i xs ≡ true → has i ids ≡ true
unfolding has
has-subset i [] ids a h = cc
has-subset i (x ∷ xs) ids a h = elim (Bool-cases (eq_ℤ x i)) [
  | inl here ↦ subst (λ j. has j ids ≡ true) ((eq_ℤ_iff x i).0 here) a.0
  | inr below ↦ has-subset i xs ids a.1 (ground arith)
]

module _ {A : Type 0} (less : A → A → Bool) (key : A → ℤ) where
  has-insert_sorted :
      (i : ℤ) (x : A) (l : List A)
      → has i (map key (insert_sorted less x l)) ≡ (eq_ℤ (key x) i || has i (map key l))
  unfolding has insert_sorted
  has-insert_sorted i x [] = refl
  has-insert_sorted i x (y ∷ ys) = ground (arith, has-insert_sorted i x ys)

  pub has-sort_slice :
      (i : ℤ) (l : List A) → has i (map key (sort_slice less l)) ≡ has i (map key l)
  unfolding has sort_slice
  has-sort_slice i [] = refl
  has-sort_slice i (x ∷ xs) =
      ground (arith, has-insert_sorted i x (sort_slice less xs), has-sort_slice i xs)

  insert_sorted-Distinct :
      (x : A) (l : List A)
      → has (key x) (map key l) ≡ false
      → Distinct (map key l)
      → Distinct (map key (insert_sorted less x l))
  unfolding has insert_sorted
  insert_sorted-Distinct x [] h d = (refl, tt)
  insert_sorted-Distinct x (y ∷ ys) h d = elim (Bool-cases (less y x)) [
    | inl before ↦
        rw (before, insert_sorted)
          (
            ground (arith, has-insert_sorted (key y) x ys, eq_ℤ_comm (key x) (key y)),
            insert_sorted-Distinct x ys (ground arith) d.1,
          )
    | inr behind ↦ rw (behind, insert_sorted) (h, d)
  ]

  pub sort_slice-Distinct :
      (l : List A) → Distinct (map key l) → Distinct (map key (sort_slice less l))
  unfolding sort_slice
  sort_slice-Distinct [] d = tt
  sort_slice-Distinct (x ∷ xs) d =
      insert_sorted-Distinct x (sort_slice less xs) (has-sort_slice (key x) xs ∙ d.0)
        (sort_slice-Distinct xs d.1)

module _ {A : Type 0} (key : A → ℤ) where
  pub has-take-drop :
      (i : ℤ) (n : ℕ) (l : List A)
      → has i (map key l) ≡ (has i (map key (take n l)) || has i (map key (drop n l)))
  has-take-drop i n l = rw (← has-append, ← map-append, take-append-drop n l)

  pub take-Distinct : (n : ℕ) (l : List A) → Distinct (map key l) → Distinct (map key (take n l))
  unfolding has
  take-Distinct zero l d = tt
  take-Distinct (suc n) [] d = tt
  take-Distinct (suc n) (x ∷ xs) d =
      (ground (arith, has-take-drop (key x) n xs), take-Distinct n xs d.1)

  -- An element with the key, and what all elements satisfy of it.
  pub has-All :
      (P : A → Type 0) (i : ℤ) (l : List A)
      → All P l
      → has i (map key l) ≡ true
      → (x : A) × (key x ≡ i) × P x
  unfolding has
  has-All P i [] a h = cc
  has-All P i (x ∷ xs) a h = elim (Bool-cases (eq_ℤ (key x) i)) [
    | inl here ↦ (x, (eq_ℤ_iff (key x) i).0 here, a.0)
    | inr below ↦ has-All P i xs a.1 (ground arith)
  ]

module _ {A : Type 0} (less : A → A → Bool) where
  -- No element behind a cut is before one in front of it.
  pub SortedBy-cut :
      (n : ℕ) (l : List A)
      → SortedBy less l
      → All (λ x. All (λ y. less y x ≡ false) (drop n l)) (take n l)
  SortedBy-cut zero l s = tt
  SortedBy-cut (suc n) [] s = tt
  SortedBy-cut (suc n) (x ∷ xs) s =
      (All-drop (λ y. less y x ≡ false) n xs s.0, SortedBy-cut n xs s.1)

  pub SortedBy-take : (n : ℕ) (l : List A) → SortedBy less l → SortedBy less (take n l)
  SortedBy-take zero l s = tt
  SortedBy-take (suc n) [] s = tt
  SortedBy-take (suc n) (x ∷ xs) s =
      (All-take (λ y. less y x ≡ false) n xs s.0, SortedBy-take n xs s.1)
