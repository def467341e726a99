-- ===== src/Examples/Pages.antt =====
-- Three posts, ranked and cut into pages.
use mathlib.Core.List.{Perm}
use cascade_feed_ranking_eng.Common.{
  ◌≤◌, ℤ, pos, eq_ℤ, eq_ℤ_iff, lt_ℤ, has, Distinct, true, some, List, [], ◌∷◌, map, Map, lookup,
  length, All, codes, ◌≡◌, refl, ◌⊎◌, arith, floor_div,
}
use cascade_feed_ranking_eng.Common.Sort.{IsOrdered, sort_slice, insert_sorted}
use cascade_feed_ranking_eng.Examples.Codec.{whole, whole-IsFloat64}
use cascade_feed_ranking_eng.Feed.{Post, CandidateSet, RankedPost, from_milli}
use cascade_feed_ranking_eng.Feed.Cursor.{Cursor}
use cascade_feed_ranking_eng.Feed.Ranking.{Weights, score_posts, rank}
use cascade_feed_ranking_eng.Feed.Ranking.Order.{rank_lem, IsScored, IsAhead}
use cascade_feed_ranking_eng.Feed.Page.{page_start}
use cascade_feed_ranking_eng.Feed.Page.Start.{ids, page_start-cursor}
use cascade_feed_ranking_eng.Feed.Select.{
  select_posts, newer, selected, select_normal, seen_normal, select_celebrity, truncate,
}
use cascade_feed_ranking_eng.Feed.Select.Eligible.{IsKeyed, is_eligible}
use cascade_feed_ranking_eng.Feed.Select.Newest.{
  IsBefore, select_posts-IsOrdered, select_posts_sound, select_posts_complete,
}

abbrev pub post : ℤ → ℤ → ℤ → Post
post id author_id ms = record {
  id = id;
  author_id = author_id;
  content = codes "hello";
  media_url = [];
  created_at = from_milli ms;
}

-- Posts 1 and 2 of a friend, and post 3 of a followed celebrity.
abbrev pub posts : List Post
posts =
    post (pos 3) (pos 9) (pos 3000)
    ∷ post (pos 2) (pos 8) (pos 2000)
    ∷ post (pos 1) (pos 8) (pos 1000)
    ∷ []

abbrev pub hydrated : Map Post
hydrated =
    (pos 1, post (pos 1) (pos 8) (pos 1000))
    ∷ (pos 2, post (pos 2) (pos 8) (pos 2000))
    ∷ (pos 3, post (pos 3) (pos 9) (pos 3000))
    ∷ (pos 4, post (pos 4) (pos 5) (pos 4000))
    ∷ []

abbrev pub candidates : CandidateSet
candidates = record {
  normal_ids = pos 1 ∷ pos 2 ∷ [];
  celebrity_ids = pos 4 ∷ pos 3 ∷ [];
  followed_celebrities = pos 9 ∷ [];
}

abbrev pub weights : Weights ℤ
weights = record { recency = pos 1; engagement = pos 1; affinity = pos 1; half_life = pos 3600 }

abbrev scored : Post → ℤ → RankedPost ℤ
scored p s = record { post = p; score = s; recency = s; engagement = pos 0; affinity = pos 0 }

abbrev ranking : List (RankedPost ℤ)
ranking =
    scored (post (pos 3) (pos 9) (pos 3000)) (pos 30)
    ∷ scored (post (pos 2) (pos 8) (pos 2000)) (pos 20)
    ∷ scored (post (pos 1) (pos 8) (pos 1000)) (pos 10)
    ∷ []

abbrev cursor : ℤ → ℤ → ℤ → Cursor ℤ
cursor s ms id = record { score = s; created_at_unix_ms = ms; post_id = id; version = pos 1 }

rank_lem_example :
    Perm (map (λ r. r.post) (rank whole weights (pos 0) posts [])) posts
    × All (IsScored whole whole-IsFloat64 weights (pos 0) []) (rank whole weights (pos 0) posts [])
    × IsOrdered (IsAhead whole whole-IsFloat64) (rank whole weights (pos 0) posts [])
unfolding score_posts
rank_lem_example =
    rank_lem whole whole-IsFloat64 weights (pos 0) posts [] (refl, (refl, (refl, tt)))

-- The cursor of post 2, whose score was different when the token was made.
page_start-cursor_example : page_start whole ranking (some (cursor (pos 25) (pos 2000) (pos 2))) ≡ 2
unfolding has eq_ℤ from_milli floor_div
page_start-cursor_example =
    page_start-cursor whole ranking posts (cursor (pos 25) (pos 2000) (pos 2)) 1
      (post (pos 2) (pos 8) (pos 2000)) refl (refl, (refl, (refl, tt))) refl refl refl

hydrated-IsKeyed : IsKeyed hydrated
unfolding lookup
hydrated-IsKeyed i p h =
    ground (arith, eq_ℤ_iff (pos 1) i, eq_ℤ_iff (pos 2) i, eq_ℤ_iff (pos 3) i, eq_ℤ_iff (pos 4) i)

-- A limit of 2 cuts off the oldest of the three posts.
select_posts-IsOrdered_example :
    IsOrdered IsBefore (select_posts candidates hydrated (pos 2))
    × Distinct (ids (select_posts candidates hydrated (pos 2)))
    × (length (select_posts candidates hydrated (pos 2)) ≤ 2)
unfolding lt_ℤ has eq_ℤ
select_posts-IsOrdered_example =
    select_posts-IsOrdered candidates hydrated (pos 2) refl hydrated-IsKeyed (refl, (refl, tt))

select_posts_sound_example : is_eligible candidates hydrated (pos 3) ≡ true
unfolding lt_ℤ has eq_ℤ lookup select_posts selected select_normal seen_normal select_celebrity
    truncate newer from_milli sort_slice insert_sorted
select_posts_sound_example =
    select_posts_sound hydrated hydrated-IsKeyed candidates (pos 2) (pos 3) refl refl

select_posts_complete_example :
    (has (pos 1) (ids (select_posts candidates hydrated (pos 2))) ≡ true)
    ⊎ ((length (select_posts candidates hydrated (pos 2)) ≡ 2)
        × All
            (λ q. IsBefore q (post (pos 1) (pos 8) (pos 1000)))
            (select_posts candidates hydrated (pos 2)))
unfolding lt_ℤ has eq_ℤ lookup
select_posts_complete_example =
    select_posts_complete hydrated hydrated-IsKeyed candidates (pos 2) (pos 1)
      (post (pos 1) (pos 8) (pos 1000)) refl refl refl
