-- ===== src/Posts.antt =====
-- services/post-service/internal: the Post Service, with the post of post/post.go.
pub mod Server
pub mod Cache
pub mod Repository
pub mod Events
pub mod Config
pub mod Main
use cascade_feed_ranking_eng.Common.{ℤ, Bytes}

-- The creation time is in nanoseconds.
pub record Post : Type 0 where
  pub id : ℤ
  pub author_id : ℤ
  pub content : Bytes
  pub media_url : Bytes
  pub created_at : ℤ
