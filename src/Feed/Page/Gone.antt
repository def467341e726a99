-- ===== src/Feed/Page/Gone.antt =====
-- `pageStart` of server.go when the cursor's own post is no longer ranked.
use cascade_feed_ranking_eng.Common.{pos, [], ◌≡◌}
use cascade_feed_ranking_eng.Feed.{Post, RankedPost, unix_milli, from_milli}
use cascade_feed_ranking_eng.Feed.Float.{Float64, IsFloat64}
use cascade_feed_ranking_eng.Feed.Cursor.{Cursor}
use cascade_feed_ranking_eng.Feed.Ranking.Order.{HasNumber}

-- A time without a fraction of a millisecond, as the post cache and Post Service give them.
abbrev pub IsWholeMilli : Post → Type 0
IsWholeMilli p = p.created_at ≡ from_milli (unix_milli p.created_at)

module _ (fl : Float64) (f : IsFloat64 fl) where
  open fl use {F, is_nan}

  -- The cursor as a ranked post of a whole millisecond.
  cursor_post : Cursor F → RankedPost F
  cursor_post c = record {
    post = record {
      id = c.post_id;
      author_id = pos 0;
      content = [];
      media_url = [];
      created_at = from_milli c.created_at_unix_ms;
    };
    score = c.score;
    recency = c.score;
    engagement = c.score;
    affinity = c.score;
  }

  abbrev pub IsComparable : RankedPost F → Type 0
  IsComparable r = HasNumber fl f r × IsWholeMilli r.post
