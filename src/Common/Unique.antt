-- ===== src/Common/Unique.antt =====
-- The loop that keeps the first of each ID, with a map of those seen: `unique` and `mergeIDs`.
use mathlib.Core.Path.{◌≡◌, refl, sym, ◌∙◌}
use mathlib.Core.Bool.{true, false, ◌&&◌, not}
use mathlib.Core.List.{List, [], ◌∷◌, ◌++◌, append-nil, append_assoc, Sublist, nil-sublist}
use mathlib.Core.List.Sublist
use mathlib.Core.Logic.{inl, inr}
use native.Mathlib.Omega.{arith}
use cascade_feed_ranking_eng.Common.Tests.{Bool-cases}
use cascade_feed_ranking_eng.Common.Int.{ℤ, eq_ℤ_iff}
use cascade_feed_ranking_eng.Common.Maps.{has, Distinct}

-- `seen` is the map's keys, and `result` grows at its end.
unfoldable pub append_unseen : List ℤ → List ℤ → List ℤ → List ℤ
append_unseen seen result [] = result
append_unseen seen result (id ∷ ids) = elim (has id seen) [
  | true ↦ append_unseen seen result ids
  | false ↦ append_unseen (id ∷ seen) (result ++ id ∷ []) ids
]

-- What the loop adds to `result`.
fresh : List ℤ → List ℤ → List ℤ
fresh seen [] = []
fresh seen (id ∷ ids) = elim (has id seen) [
  | true ↦ fresh seen ids
  | false ↦ id ∷ fresh (id ∷ seen) ids
]

append_unseen-fresh :
    (seen result ids : List ℤ) → append_unseen seen result ids ≡ result ++ fresh seen ids
unfolding append_unseen fresh
append_unseen-fresh seen result [] = sym (append-nil result)
append_unseen-fresh seen result (id ∷ ids) = elim (Bool-cases (has id seen)) [
  | inl old ↦ rw (old, append_unseen, fresh) (append_unseen-fresh seen result ids)
  | inr new ↦
      rw (new, append_unseen, fresh)
        (append_unseen-fresh (id ∷ seen) (result ++ id ∷ []) ids
          ∙ append_assoc result (id ∷ []) (fresh (id ∷ seen) ids))
]

has-fresh : (i : ℤ) (seen ids : List ℤ) → has i (fresh seen ids) ≡ (has i ids && not (has i seen))
unfolding has fresh
has-fresh i seen [] = refl
has-fresh i seen (id ∷ ids) = elim (Bool-cases (has id seen)) [
  | inl old ↦ rw (old, fresh) (ground (arith, has-fresh i seen ids, eq_ℤ_iff id i))
  | inr new ↦ rw (new, fresh) (ground (arith, has-fresh i (id ∷ seen) ids, eq_ℤ_iff id i))
]

fresh-Distinct : (seen ids : List ℤ) → Distinct (fresh seen ids)
unfolding has fresh
fresh-Distinct seen [] = tt
fresh-Distinct seen (id ∷ ids) = elim (Bool-cases (has id seen)) [
  | inl old ↦ rw (old, fresh) (fresh-Distinct seen ids)
  | inr new ↦
      rw (new, fresh)
        (
          ground (arith, has-fresh id (id ∷ seen) ids, eq_ℤ_iff id id),
          fresh-Distinct (id ∷ seen) ids,
        )
]

fresh-sublist : (seen ids : List ℤ) → Sublist (fresh seen ids) ids
unfolding fresh
fresh-sublist seen [] = nil-sublist []
fresh-sublist seen (id ∷ ids) = elim (Bool-cases (has id seen)) [
  | inl old ↦ rw (old, fresh) (Sublist.cons id (fresh-sublist seen ids))
  | inr new ↦ rw (new, fresh) (Sublist.cons-cons id (fresh-sublist (id ∷ seen) ids))
]

module _ (ids : List ℤ) where
  -- The loop from nothing seen keeps every ID,
  pub has-append_unseen : (i : ℤ) → has i (append_unseen [] [] ids) ≡ has i ids
  unfolding has
  has-append_unseen i = rw append_unseen-fresh (ground (arith, has-fresh i [] ids))

  -- each once,
  pub append_unseen-Distinct : Distinct (append_unseen [] [] ids)
  append_unseen-Distinct = rw append_unseen-fresh (fresh-Distinct [] ids)

  -- in their order.
  pub append_unseen-sublist : Sublist (append_unseen [] [] ids) ids
  append_unseen-sublist = rw append_unseen-fresh (fresh-sublist [] ids)
