-- ===== src/Feed/Ranking.antt =====
-- services/feed-service/internal/ranking/heuristic.go: the ranker. `now` is the clock's reading.
pub mod Order
use cascade_feed_ranking_eng.Common.{
  wrap64, ◌-◌, ◌%◌, ◌^◌, ℤ, pos, negsuc, ◌+ℤ◌, ◌-ℤ◌, ◌*ℤ◌, lt_ℤ, eq_ℤ, ltb, Bool, not, List, [],
  ◌∷◌, none, some, Map, lookup, if◌then◌else◌,
}
use cascade_feed_ranking_eng.Common.Sort.{sort_slice}
use cascade_feed_ranking_eng.Feed.{Time, Post, Signal, RankedPost}
use cascade_feed_ranking_eng.Feed.Float.{Float64}

-- `Time.Sub` stops at the largest and the smallest Duration.
unfoldable pub time_sub : Time → Time → ℤ
time_sub t u =
    let d = t -ℤ u in
    if lt_ℤ (pos (2 ^ 63 - 1)) d
    then pos (2 ^ 63 - 1)
    else if lt_ℤ d (negsuc (2 ^ 63 - 1))
    then negsuc (2 ^ 63 - 1)
    else d

pub record Weights (F : Type 0) : Type 0 where
  pub recency : F
  pub engagement : F
  pub affinity : F
  pub half_life : ℤ

module _ (fl : Float64) where
  open fl use {F, lt, eq, of_int, neg, add, mul, div, exp, log1p}

  -- `signals[post.ID]`: the zero Signal where there is none.
  unfoldable pub signal_of : Map (Signal F) → ℤ → Signal F
  signal_of signals id = elim (lookup id signals) [
    | none ↦ record { likes = pos 0; comments = pos 0; affinity = of_int (pos 0) }
    | some s ↦ s
  ]

  unfoldable pub age_of : Time → Post → ℤ
  age_of now post =
      let age = time_sub now post.created_at in if lt_ℤ age (pos 0) then pos 0 else age

  -- One round of the scoring loop.
  unfoldable pub score_post : Weights F → Time → Map (Signal F) → Post → RankedPost F
  score_post weights now signals post =
      let age = age_of now post in
      let signal = signal_of signals post.id in
      let recency = mul weights.recency (exp (div (neg (of_int age)) (of_int weights.half_life))) in
      let engagement =
        mul weights.engagement
          (log1p (of_int (wrap64 (signal.likes +ℤ wrap64 (pos 2 *ℤ signal.comments))))) in
      let affinity = mul weights.affinity signal.affinity in
      record {
        post = post;
        score = add (add recency engagement) affinity;
        recency = recency;
        engagement = engagement;
        affinity = affinity;
      }

  unfoldable pub score_posts : Weights F → Time → Map (Signal F) → List Post → List (RankedPost F)
  score_posts weights now signals [] = []
  score_posts weights now signals (post ∷ posts) =
      score_post weights now signals post ∷ score_posts weights now signals posts

  -- The comparison of the sort: by score, then the newer, then the larger ID.
  unfoldable pub ranks_before : RankedPost F → RankedPost F → Bool
  ranks_before a b =
      if not (eq a.score b.score)
      then lt b.score a.score
      else if not (eq_ℤ a.created_at b.created_at)
      then lt_ℤ b.created_at a.created_at
      else lt_ℤ b.id a.id

  unfoldable pub rank : Weights F → Time → List Post → Map (Signal F) → List (RankedPost F)
  rank weights now posts signals = sort_slice ranks_before (score_posts weights now signals posts)
