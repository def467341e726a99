-- ===== src/Fanout.antt =====
-- services/fanout-worker/internal: the types of the Fanout Worker.
pub mod Events
pub mod Timeline
pub mod Processor
pub mod Consumer
pub mod Warm
pub mod Config
pub mod Metrics
pub mod Worker
pub mod Repository
pub mod WarmCommand
use cascade_feed_ranking_eng.Common.{ℤ, Bytes, List}

-- repository.Post, and repository.PostContent with the body.
pub record Post : Type 0 where
  pub id : ℤ
  pub created_at_unix_ms : ℤ

pub record PostCreated : Type 0 where
  pub event_type : Bytes
  pub post_id : ℤ
  pub author_id : ℤ
  pub created_at_unix_ms : ℤ

pub record PostDeleted : Type 0 where
  pub event_type : Bytes
  pub post_id : ℤ
  pub author_id : ℤ
  pub deleted_at_unix_ms : ℤ

pub record FollowCreated : Type 0 where
  pub event_type : Bytes
  pub follower_id : ℤ
  pub followee_id : ℤ
  pub created_at_unix_ms : ℤ

pub record FollowDeleted : Type 0 where
  pub event_type : Bytes
  pub follower_id : ℤ
  pub followee_id : ℤ
  pub deleted_at_unix_ms : ℤ

-- The values of type `any` that the parsers return.
pub data Event : Type 0 where
  post_created : PostCreated → Event
  post_deleted : PostDeleted → Event
  follow_created : FollowCreated → Event
  follow_deleted : FollowDeleted → Event
