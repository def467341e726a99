-- ===== src/Fanout/Repository.antt =====
-- services/fanout-worker/internal/repository/postgres.go: the queries and the loops over their rows.
-- A query with its statement is a field of `Pool`.
pub mod Complete
use cascade_feed_ranking_eng.Common.{
  ℕ, ℤ, eq_ℤ, lt_ℤ, nonpos, leb, Bool, true, false, not, ◌&&◌, ◌||◌, List, [], ◌∷◌, map, length,
  Bytes, Error, Exec, pure, lift, ◌>>=◌, if◌then◌else◌,
}
use cascade_feed_ranking_eng.Common.Sort.{sort_slice}
use cascade_feed_ranking_eng.Database.{
  Rows, read_rows, Tables, UserRow, FollowRow, PostRow, filter, coalesce,
}
use cascade_feed_ranking_eng.Feed.{Time, unix_milli}
use cascade_feed_ranking_eng.Fanout.{Post}
use cascade_feed_ranking_eng.Fanout.Warm.{PostContent, User, FollowEdge}

-- `id, author_id, content, media_url, created_at`, and `id, created_at`.
pub record ContentRow : Type 0 where
  pub id : ℤ
  pub author_id : ℤ
  pub content : Bytes
  pub media_url : Bytes
  pub created_at : Time

pub record RecentRow : Type 0 where
  pub id : ℤ
  pub created_at : Time

pub record Pool (W : Type 0) : Type 0 where
  pub query_follower_count : ℤ → Exec W Error ℤ
  pub query_follower_ids : ℤ → Exec W Error (Rows ℤ)
  pub query_users : Exec W Error (Rows User)
  pub query_follows : Exec W Error (Rows FollowEdge)
  pub query_recent_per_author : ℤ → Exec W Error (Rows ContentRow)
  pub query_recent : ℤ → ℤ → Exec W Error (Rows RecentRow)

unfoldable pub to_post : RecentRow → Post
to_post row = record { id = row.id; created_at_unix_ms = unix_milli row.created_at }

unfoldable pub to_content : ContentRow → PostContent
to_content row = record {
  id = row.id;
  author_id = row.author_id;
  content = row.content;
  media_url = row.media_url;
  created_at_unix_ms = unix_milli row.created_at;
}

module _ {W : Type 0} (pool : Pool W) where
  unfoldable pub follower_count : ℤ → Exec W Error ℤ
  follower_count user_id = do count ← pool.query_follower_count user_id; pure count

  unfoldable pub follower_ids : ℤ → Exec W Error (List ℤ)
  follower_ids followee_id = do
    rows ← pool.query_follower_ids followee_id
    lift (read_rows (λ id. id) rows)

  unfoldable pub list_users : Exec W Error (List User)
  list_users = do rows ← pool.query_users; lift (read_rows (λ user. user) rows)

  unfoldable pub list_follows : Exec W Error (List FollowEdge)
  list_follows = do rows ← pool.query_follows; lift (read_rows (λ edge. edge) rows)

  unfoldable pub query_per_author : ℤ → Exec W Error (List PostContent)
  query_per_author per_author = do
    rows ← pool.query_recent_per_author per_author
    lift (read_rows to_content rows)

  unfoldable pub recent_posts_per_author : ℤ → Exec W Error (List PostContent)
  recent_posts_per_author per_author =
      if nonpos per_author then pure [] else query_per_author per_author

  unfoldable pub recent_posts : ℤ → ℤ → Exec W Error (List Post)
  recent_posts author_id limit = do
    rows ← pool.query_recent author_id limit
    lift (read_rows to_post rows)
