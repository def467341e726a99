-- ===== src/Fanout/Events.antt =====
-- services/fanout-worker/internal/events/events.go: the parsers of the Kafka payloads. They take
-- `json.Unmarshal` into each type as an `EventJson`, where `none` is an error; `event_json` is the one
-- of the tags in the source, for any reader of JSON text.
pub mod Readings
use cascade_feed_ranking_eng.Common.{
  ℤ, nonpos, Bool, ◌||◌, Option, none, some, Bytes, codes, eq_bytes, Error, permanent, Result, ok,
  err, if◌then◌else◌,
}
use cascade_feed_ranking_eng.Fanout.{
  PostCreated, PostDeleted, FollowCreated, FollowDeleted, Event, post_created, post_deleted,
  follow_created, follow_deleted,
}
use cascade_feed_ranking_eng.Json.{◌>>=◌, Object, text_field, number_field}

pub record EventJson : Type 0 where
  pub envelope : Bytes → Option Bytes
  pub post_created : Bytes → Option PostCreated
  pub post_deleted : Bytes → Option PostDeleted
  pub follow_created : Bytes → Option FollowCreated
  pub follow_deleted : Bytes → Option FollowDeleted

-- The structs, each field by its tag.
unfoldable pub decode_post_created : Object → Option PostCreated
decode_post_created members = do
  event_type ← text_field (codes "eventType") members
  post_id ← number_field (codes "postId") members
  author_id ← number_field (codes "authorId") members
  created_at_unix_ms ← number_field (codes "createdAtUnixMs") members
  some (record {
    event_type = event_type;
    post_id = post_id;
    author_id = author_id;
    created_at_unix_ms = created_at_unix_ms;
  })

unfoldable pub decode_post_deleted : Object → Option PostDeleted
decode_post_deleted members = do
  event_type ← text_field (codes "eventType") members
  post_id ← number_field (codes "postId") members
  author_id ← number_field (codes "authorId") members
  deleted_at_unix_ms ← number_field (codes "deletedAtUnixMs") members
  some (record {
    event_type = event_type;
    post_id = post_id;
    author_id = author_id;
    deleted_at_unix_ms = deleted_at_unix_ms;
  })

unfoldable pub decode_follow_created : Object → Option FollowCreated
decode_follow_created members = do
  event_type ← text_field (codes "eventType") members
  follower_id ← number_field (codes "followerId") members
  followee_id ← number_field (codes "followeeId") members
  created_at_unix_ms ← number_field (codes "createdAtUnixMs") members
  some (record {
    event_type = event_type;
    follower_id = follower_id;
    followee_id = followee_id;
    created_at_unix_ms = created_at_unix_ms;
  })

unfoldable pub decode_follow_deleted : Object → Option FollowDeleted
decode_follow_deleted members = do
  event_type ← text_field (codes "eventType") members
  follower_id ← number_field (codes "followerId") members
  followee_id ← number_field (codes "followeeId") members
  deleted_at_unix_ms ← number_field (codes "deletedAtUnixMs") members
  some (record {
    event_type = event_type;
    follower_id = follower_id;
    followee_id = followee_id;
    deleted_at_unix_ms = deleted_at_unix_ms;
  })

unfoldable pub event_json : (Bytes → Option Object) → EventJson
event_json unmarshal = record {
  envelope = λ payload. (do members ← unmarshal payload; text_field (codes "eventType") members);
  post_created = λ payload. (do members ← unmarshal payload; decode_post_created members);
  post_deleted = λ payload. (do members ← unmarshal payload; decode_post_deleted members);
  follow_created = λ payload. (do members ← unmarshal payload; decode_follow_created members);
  follow_deleted = λ payload. (do members ← unmarshal payload; decode_follow_deleted members);
}

-- The IDs and the time of an event are positive.
unfoldable pub has_nonpos : ℤ → ℤ → ℤ → Bool
has_nonpos a b c = nonpos a || nonpos b || nonpos c

unfoldable pub parse_post_created : EventJson → Bytes → Result Error Event
parse_post_created json payload = elim (json.post_created payload) [
  | none ↦ err permanent
  | some event ↦
      if has_nonpos event.post_id event.author_id event.created_at_unix_ms
      then err permanent
      else ok (post_created event)
]

unfoldable pub parse_post_deleted : EventJson → Bytes → Result Error Event
parse_post_deleted json payload = elim (json.post_deleted payload) [
  | none ↦ err permanent
  | some event ↦
      if has_nonpos event.post_id event.author_id event.deleted_at_unix_ms
      then err permanent
      else ok (post_deleted event)
]

unfoldable pub parse_post : EventJson → Bytes → Result Error Event
parse_post json payload = elim (json.envelope payload) [
  | none ↦ err permanent
  | some event_type ↦
      if eq_bytes event_type (codes "PostCreated")
      then parse_post_created json payload
      else if eq_bytes event_type (codes "PostDeleted")
      then parse_post_deleted json payload
      else err permanent
]

unfoldable pub parse_follow_created : EventJson → Bytes → Result Error Event
parse_follow_created json payload = elim (json.follow_created payload) [
  | none ↦ err permanent
  | some event ↦
      if has_nonpos event.follower_id event.followee_id event.created_at_unix_ms
      then err permanent
      else ok (follow_created event)
]

unfoldable pub parse_follow_deleted : EventJson → Bytes → Result Error Event
parse_follow_deleted json payload = elim (json.follow_deleted payload) [
  | none ↦ err permanent
  | some event ↦
      if has_nonpos event.follower_id event.followee_id event.deleted_at_unix_ms
      then err permanent
      else ok (follow_deleted event)
]

unfoldable pub parse_follow : EventJson → Bytes → Result Error Event
parse_follow json payload = elim (json.envelope payload) [
  | none ↦ err permanent
  | some event_type ↦
      if eq_bytes event_type (codes "FollowCreated")
      then parse_follow_created json payload
      else if eq_bytes event_type (codes "FollowDeleted")
      then parse_follow_deleted json payload
      else err permanent
]
