-- ===== src/Feed/Select/Merged.antt =====
-- `mergeIDs` of server.go.
use mathlib.Core.List.{Sublist}
use cascade_feed_ranking_eng.Common.{
  ℤ, ◌||◌, List, ◌++◌, has, Distinct, has-append, has-append_unseen, append_unseen-Distinct,
  append_unseen-sublist, ◌≡◌, ◌∙◌,
}
use cascade_feed_ranking_eng.Feed.Select.{merge_ids}

-- The merged IDs are those of the two lists, each once, normal candidates before celebrity ones
-- and otherwise in their order.
merge_ids_lem :
    (normal celebrity : List ℤ)
    → Distinct (merge_ids normal celebrity)
      × ((i : ℤ) → has i (merge_ids normal celebrity) ≡ (has i normal || has i celebrity))
      × Sublist (merge_ids normal celebrity) (normal ++ celebrity)
unfolding merge_ids
merge_ids_lem normal celebrity = (
  append_unseen-Distinct (normal ++ celebrity),
  λ i. has-append_unseen (normal ++ celebrity) i ∙ has-append i normal celebrity,
  append_unseen-sublist (normal ++ celebrity),
)
