-- ===== src/Fanout/Warm/Sources.antt =====
-- Whose posts warmer.go puts into a timeline.
use mathlib.Core.List.{Memᴰ}
use cascade_feed_ranking_eng.Common.{ℤ, true, false, List, has, ◌≡◌}
use cascade_feed_ranking_eng.Fanout.{Post}
use cascade_feed_ranking_eng.Fanout.Warm.{PostContent}

module _ (stars : List ℤ) where
  -- An author of the list who is no celebrity.
  IsNormal : List ℤ → ℤ → Type 0
  IsNormal ids author = (has author ids ≡ true) × (has author stars ≡ false)

  -- A timeline entry that stands for one of the posts, by one of the authors.
  pub IsSource : List PostContent → List ℤ → Post → Type 0
  IsSource posts ids q =
      (p : PostContent) × Memᴰ p posts
      × (p.id ≡ q.id)
      × (p.created_at_unix_ms ≡ q.created_at_unix_ms)
      × IsNormal ids p.author_id
