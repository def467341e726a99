-- ===== src/Posts/Events.antt =====
-- services/post-service/internal/events/kafka.go: the events that the Post Service publishes.
pub mod Accepted
use cascade_feed_ranking_eng.Common.{
  ℤ, pos, Option, none, some, [], ◌∷◌, Bytes, codes, floor_div, Error, other, Result, ok, err, Exec,
  lift, ◌>>=◌,
}
use cascade_feed_ranking_eng.Common.Decimal.{format_int}
use cascade_feed_ranking_eng.Fanout.Consumer.{Record}
use cascade_feed_ranking_eng.Json.{Object, text, number}
use cascade_feed_ranking_eng.Posts.{Post}

pub record PostCreated : Type 0 where
  pub event_type : Bytes
  pub post_id : ℤ
  pub author_id : ℤ
  pub created_at_unix_m : ℤ

pub record PostDeleted : Type 0 where
  pub event_type : Bytes
  pub post_id : ℤ
  pub author_id : ℤ
  pub deleted_at_unix_m : ℤ

-- The fields with the names in their tags, which is what `json.Marshal` writes.
unfoldable pub created_object : PostCreated → Object
created_object event =
    (codes "eventType", text event.event_type)
    ∷ (codes "postId", number event.post_id)
    ∷ (codes "authorId", number event.author_id)
    ∷ (codes "createdAtUnixMs", number event.created_at_unix_m)
    ∷ []

unfoldable pub deleted_object : PostDeleted → Object
deleted_object event =
    (codes "eventType", text event.event_type)
    ∷ (codes "postId", number event.post_id)
    ∷ (codes "authorId", number event.author_id)
    ∷ (codes "deletedAtUnixMs", number event.deleted_at_unix_m)
    ∷ []

-- The text that `json.Marshal` makes of an object, and ProduceSync.
pub record Kafka (W : Type 0) : Type 0 where
  pub topic : Bytes
  pub marshal : Object → Option Bytes
  pub produce : Record → Exec W Error (Unit {0})

unfoldable pub created_event : Post → PostCreated
created_event p = record {
  event_type = codes "PostCreated";
  post_id = p.id;
  author_id = p.author_id;
  created_at_unix_m = floor_div p.created_at 1000000;
}

unfoldable pub deleted_event : ℤ → ℤ → ℤ → PostDeleted
deleted_event post_id author_id deleted_at = record {
  event_type = codes "PostDeleted";
  post_id = post_id;
  author_id = author_id;
  deleted_at_unix_m = floor_div deleted_at 1000000;
}

module _ {W : Type 0} (k : Kafka W) where
  unfoldable pub new_record : ℤ → Object → Result Error Record
  new_record author_id event = elim (k.marshal event) [
    | none ↦ err other
    | some value ↦ ok (record {
      topic = k.topic;
      partition = pos 0;
      offset = pos 0;
      key = format_int author_id;
      value = value;
      headers = [];
    })
  ]

  unfoldable pub publish : ℤ → Object → Exec W Error (Unit {0})
  publish author_id event = do kgo_record ← lift (new_record author_id event); k.produce kgo_record

  unfoldable pub publish_created : Post → Exec W Error (Unit {0})
  publish_created p = publish p.author_id (created_object (created_event p))

  unfoldable pub publish_deleted : ℤ → ℤ → ℤ → Exec W Error (Unit {0})
  publish_deleted post_id author_id deleted_at =
      publish author_id (deleted_object (deleted_event post_id author_id deleted_at))
