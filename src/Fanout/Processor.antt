-- ===== src/Fanout/Processor.antt =====
-- services/fanout-worker/internal/fanout: decision.go and processor.go, the handling of one event.
-- PostgreSQL is the parameter `Repository`.
pub mod Accepted
pub mod Fresh
use cascade_feed_ranking_eng.Common.{
  ℕ, ℤ, lt_ℤ, Bool, true, false, not, Option, none, some, List, Bytes, eq_bytes, Error, permanent,
  Exec, pure, raise, lift, ◌>>=◌, ◌>>◌, if◌then◌else◌,
}
use cascade_feed_ranking_eng.Fanout.{
  Post, PostCreated, PostDeleted, FollowCreated, FollowDeleted, Event, post_created, post_deleted,
  follow_created, follow_deleted,
}
use cascade_feed_ranking_eng.Fanout.Events.{EventJson, parse_post, parse_follow}
use cascade_feed_ranking_eng.Fanout.Timeline.{
  Redis, cached_follower_count, cache_follower_count, invalidate_follower_count, fanout_post,
  add_celebrity_post, add_tombstone, backfill, add_celebrity_follow, remove_celebrity_follow,
}

pub record Repository (W : Type 0) : Type 0 where
  pub follower_count : ℤ → Exec W Error ℤ
  pub follower_ids : ℤ → Exec W Error (List ℤ)
  pub recent_posts : ℤ → ℤ → Exec W Error (List Post)

pub record Settings : Type 0 where
  pub post_topic : Bytes
  pub follow_topic : Bytes
  pub celebrity_follower_threshold : ℤ
  pub max_timeline_len : ℤ
  pub backfill_count : ℤ
  pub fanout_batch_size : ℕ

-- Authors at or above the threshold are celebrities.
unfoldable pub should_fanout_on_write : ℤ → ℤ → Bool
should_fanout_on_write follower_count threshold = lt_ℤ follower_count threshold

-- The Processor with its repository and timeline.
pub record Processor (W : Type 0) : Type 0 where
  pub repository : Repository W
  pub timeline : Redis W
  pub settings : Settings
  pub json : EventJson

module _ {W : Type 0} (p : Processor W) where
  unfoldable pub use_count : ℤ → Option ℤ → Exec W Error ℤ
  use_count user_id (some count) = pure count
  use_count user_id none = do
    count ← p.repository.follower_count user_id
    cache_follower_count p.timeline user_id count
    pure count

  unfoldable pub follower_count : ℤ → Exec W Error ℤ
  follower_count user_id = do
    cached ← cached_follower_count p.timeline user_id
    use_count user_id cached

  unfoldable pub deliver_post : PostCreated → Post → ℤ → Exec W Error (Unit {0})
  deliver_post event post count =
      if not (should_fanout_on_write count p.settings.celebrity_follower_threshold)
      then add_celebrity_post p.timeline post p.settings.max_timeline_len
      else do
        followers ← p.repository.follower_ids event.author_id
        fanout_post p.timeline followers post p.settings.max_timeline_len
            p.settings.fanout_batch_size

  unfoldable pub process_post : Event → Exec W Error (Unit {0})
  process_post (post_created event) = do
    count ← follower_count event.author_id
    deliver_post event
        (record { id = event.post_id; created_at_unix_ms = event.created_at_unix_ms }) count
  process_post (post_deleted event) = add_tombstone p.timeline event.post_id
  process_post (follow_created event) = raise permanent
  process_post (follow_deleted event) = raise permanent

  unfoldable pub deliver_follow : FollowCreated → ℤ → Exec W Error (Unit {0})
  deliver_follow event count =
      if not (should_fanout_on_write count p.settings.celebrity_follower_threshold)
      then add_celebrity_follow p.timeline event.follower_id event.followee_id
      else do
        posts ← p.repository.recent_posts event.followee_id p.settings.backfill_count
        backfill p.timeline event.follower_id posts p.settings.max_timeline_len

  unfoldable pub process_follow : Event → Exec W Error (Unit {0})
  process_follow (follow_created event) = do
    invalidate_follower_count p.timeline event.followee_id
    count ← follower_count event.followee_id
    deliver_follow event count
  process_follow (follow_deleted event) = do
    remove_celebrity_follow p.timeline event.follower_id event.followee_id
    invalidate_follower_count p.timeline event.followee_id
  process_follow (post_created event) = raise permanent
  process_follow (post_deleted event) = raise permanent

  unfoldable pub process : Bytes → Bytes → Exec W Error (Unit {0})
  process topic payload =
      if eq_bytes topic p.settings.post_topic
      then lift (parse_post p.json payload) >>= process_post
      else if eq_bytes topic p.settings.follow_topic
      then lift (parse_follow p.json payload) >>= process_follow
      else raise permanent
