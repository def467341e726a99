-- ===== src/Examples/Warming.antt =====
-- The two newest of three posts.
use mathlib.Core.List.{Perm}
use cascade_feed_ranking_eng.Common.{
  ◌≤◌, ℤ, pos, nonpos, false, List, [], ◌∷◌, ◌++◌, length, All, codes, refl, ◌≡◌, ◌⊎◌,
}
use cascade_feed_ranking_eng.Common.Sort.{IsOrdered}
use cascade_feed_ranking_eng.Fanout.Warm.{PostContent, User, FollowEdge, newest_contents}
use cascade_feed_ranking_eng.Fanout.Warm.Newest.{IsBefore, newest_contents_lem}

abbrev content : ℤ → ℤ → PostContent
content id ms = record {
  id = id;
  author_id = pos 8;
  content = codes "hello";
  media_url = [];
  created_at_unix_ms = ms;
}

abbrev contents : List PostContent
contents = content (pos 1) (pos 1000) ∷ content (pos 3) (pos 3000) ∷ content (pos 2) (pos 2000) ∷ []

newest_contents_lem_example :
    (rest : List PostContent) × Perm (newest_contents contents (pos 2) ++ rest) contents
    × IsOrdered IsBefore (newest_contents contents (pos 2))
    × All (λ kept. All (IsBefore kept) rest) (newest_contents contents (pos 2))
    × (length (newest_contents contents (pos 2)) ≤ 2)
    × ((rest ≡ []) ⊎ (length (newest_contents contents (pos 2)) ≡ 2))
unfolding nonpos
newest_contents_lem_example = newest_contents_lem contents (pos 2) refl

-- A user who follows a celebrity, user 9, and the author of the posts.
abbrev edges : List FollowEdge
edges =
    record { follower_id = pos 1; followee_id = pos 9 }
    ∷ record { follower_id = pos 1; followee_id = pos 8 }
    ∷ []

abbrev user : User
user = record { id = pos 1; follower_count = pos 0; celebrity = false }
