-- ===== src/Common/Sort.antt =====
-- `sort.Slice` with a `less` function. The order among elements that `less` does not tell apart
-- is not promised by Go; the comparisons of this program end in the unique ID.
use mathlib.Core.List.{Perm}
use mathlib.Core.List.Perm
use cascade_feed_ranking_eng.Common.Tests.{if◌then◌else◌, Bool-cases}
use cascade_feed_ranking_eng.Common.Lists.{All, All-imp, All-zip}
use cascade_feed_ranking_eng.Common.Int.{ℤ, lt_ℤ}
use mathlib.Core.Path.{◌≡◌}
use mathlib.Core.Logic.{◌⊎◌, inl, inr}
use mathlib.Core.Bool.{Bool, true, false}
use mathlib.Core.List.{List, [], ◌∷◌}

module _ {A : Type 0} (less : A → A → Bool) where
  unfoldable pub insert_sorted : A → List A → List A
  insert_sorted x [] = x ∷ []
  insert_sorted x (y ∷ ys) = if less y x then y ∷ insert_sorted x ys else x ∷ y ∷ ys

  unfoldable pub sort_slice : List A → List A
  unfolding insert_sorted
  sort_slice [] = []
  sort_slice (x ∷ xs) = insert_sorted x (sort_slice xs)

  -- No element is `less` than one that stands before it.
  abbrev pub SortedBy : List A → Type 0
  SortedBy [] = Unit
  SortedBy (x ∷ xs) = All (λ y. less y x ≡ false) xs × SortedBy xs

  insert_sorted-perm : (x : A) (l : List A) → Perm (insert_sorted x l) (x ∷ l)
  unfolding insert_sorted
  insert_sorted-perm x [] = Perm.rfl
  insert_sorted-perm x (y ∷ ys) = elim (Bool-cases (less y x)) [
    | inl p ↦
        rw (p, insert_sorted)
          (Perm.trans (Perm.cons y (insert_sorted-perm x ys)) (Perm.swap x y ys))
    | inr p ↦ rw (p, insert_sorted) Perm.rfl
  ]

  -- Sorting loses and invents nothing.
  pub sort_slice-perm : (l : List A) → Perm (sort_slice l) l
  unfolding sort_slice
  sort_slice-perm [] = Perm.rfl
  sort_slice-perm (x ∷ xs) =
      Perm.trans (insert_sorted-perm x (sort_slice xs)) (Perm.cons x (sort_slice-perm xs))

  pub All-insert_sorted {κ} :
      (P : A → Type κ) (x : A) (l : List A) → P x → All P l → All P (insert_sorted x l)
  unfolding insert_sorted
  All-insert_sorted P x [] px h = (px, tt)
  All-insert_sorted P x (y ∷ ys) px h = elim (Bool-cases (less y x)) [
    | inl p ↦ rw (p, insert_sorted) (h.0, All-insert_sorted P x ys px h.1)
    | inr p ↦ rw (p, insert_sorted) (px, h)
  ]

  pub All-sort_slice {κ} : (P : A → Type κ) (l : List A) → All P l → All P (sort_slice l)
  unfolding sort_slice
  All-sort_slice P [] h = tt
  All-sort_slice P (x ∷ xs) h = All-insert_sorted P x (sort_slice xs) h.0 (All-sort_slice P xs h.1)

-- `less` is a strict weak order on the elements that satisfy `P`.
pub record IsStrictWeak {A : Type 0} (P : A → Type 0) (less : A → A → Bool) : Type 0 where
  pub asymm : (a b : A) → P a → P b → less a b ≡ true → less b a ≡ false
  pub negtrans :
      (a b c : A) → P a → P b → P c → less b a ≡ false → less c b ≡ false → less c a ≡ false

module _ {A : Type 0} (P : A → Type 0) (less : A → A → Bool) (w : IsStrictWeak P less) where
  below-All :
      (x y : A) (l : List A)
      → P x
      → P y
      → All P l
      → less y x ≡ false
      → All (λ z. less z y ≡ false) l
      → All (λ z. less z x ≡ false) l
  below-All x y [] px py pl p h = tt
  below-All x y (z ∷ l) px py pl p h =
      (w.negtrans x y z px py pl.0 p h.0, below-All x y l px py pl.1 p h.1)

  insert_sorted-SortedBy :
      (x : A) (l : List A)
      → P x
      → All P l
      → SortedBy less l
      → SortedBy less (insert_sorted less x l)
  unfolding insert_sorted
  insert_sorted-SortedBy x [] px pl s = (tt, tt)
  insert_sorted-SortedBy x (y ∷ ys) px pl s = elim (Bool-cases (less y x)) [
    | inl p ↦
        rw (p, insert_sorted)
          (
            All-insert_sorted less (λ z. less z y ≡ false) x ys (w.asymm y x pl.0 px p) s.0,
            insert_sorted-SortedBy x ys px pl.1 s.1,
          )
    | inr p ↦ rw (p, insert_sorted) ((p, below-All x y ys px pl.0 pl.1 p s.0), s)
  ]

  -- The result is in order.
  pub sort_slice-SortedBy : (l : List A) → All P l → SortedBy less (sort_slice less l)
  unfolding sort_slice
  sort_slice-SortedBy [] h = tt
  sort_slice-SortedBy (x ∷ xs) h =
      insert_sorted-SortedBy x (sort_slice less xs) h.0 (All-sort_slice less P xs h.1)
        (sort_slice-SortedBy xs h.1)

-- Each element has the relation to all that stand behind it.
abbrev pub IsOrdered : {A : Type 0} → (A → A → Type 0) → List A → Type 0
IsOrdered R [] = Unit
IsOrdered R (x ∷ xs) = All (R x) xs × IsOrdered R xs

pub SortedBy-IsOrdered :
    {A : Type 0} (P : A → Type 0) (R : A → A → Type 0) (less : A → A → Bool)
    → ((x y : A) → P x → P y → less y x ≡ false → R x y)
    → (l : List A) → All P l
    → SortedBy less l
    → IsOrdered R l
SortedBy-IsOrdered P R less h [] p s = tt
SortedBy-IsOrdered P R less h (x ∷ xs) p s = (
  All-imp (λ y. P y × (less y x ≡ false)) (R x) (λ y (py, k). h x y p.0 py k) xs
      (All-zip P (λ y. less y x ≡ false) xs p.1 s.0),
  SortedBy-IsOrdered P R less h xs p.1 s.1,
)

-- The first of two things with a time and an ID comes no later when the newer is first, and then the
-- larger ID.
abbrev pub IsNotOlder : ℤ → ℤ → ℤ → ℤ → Type 0
IsNotOlder at id other_at other_id =
    (lt_ℤ other_at at ≡ true) ⊎ ((at ≡ other_at) × (lt_ℤ id other_id ≡ false))
