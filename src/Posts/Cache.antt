-- ===== src/Posts/Cache.antt =====
-- services/post-service/internal/cache: redis.go and noop.go. JSON is the parameter `ValueJson`.
pub mod Noop
pub mod RoundTrip
pub mod Stored
use cascade_feed_ranking_eng.Common.{
  ℤ, nonpos, Option, none, some, List, [], ◌∷◌, map, Map, insert, Bytes, floor_div, Error, other,
  Result, ok, err, Exec, pure, lift, ◌>>=◌, if◌then◌else◌,
}
use cascade_feed_ranking_eng.Common.Decimal.{format_int}
use cascade_feed_ranking_eng.Feed.{from_milli}
use cascade_feed_ranking_eng.Fanout.Timeline.{day}
use cascade_feed_ranking_eng.Redis.{
  Client, Command, set, del, sadd, expire, Value, nil, text, unexpected, post_key, tombstones_key,
}
use cascade_feed_ranking_eng.Posts.{Post}

-- The stored JSON value.
pub record CacheValue : Type 0 where
  pub id : ℤ
  pub author_id : ℤ
  pub content : Bytes
  pub media_url : Bytes
  pub created_at_unix_ms : ℤ

pub record ValueJson : Type 0 where
  pub marshal : CacheValue → Option Bytes
  pub unmarshal : Bytes → Option CacheValue

pub record RedisCache (W : Type 0) : Type 0 where
  pub client : Client W
  pub ttl : ℤ
  pub tombstone_ttl : ℤ
  pub json : ValueJson

unfoldable pub new_cache : {W : Type 0} → Client W → ValueJson → ℤ → ℤ → RedisCache W
new_cache client json ttl tombstone_ttl = record {
  client = client;
  ttl = ttl;
  tombstone_ttl = if nonpos tombstone_ttl then day else tombstone_ttl;
  json = json;
}

unfoldable pub to_value : Post → CacheValue
to_value p = record {
  id = p.id;
  author_id = p.author_id;
  content = p.content;
  media_url = p.media_url;
  created_at_unix_ms = floor_div p.created_at 1000000;
}

unfoldable pub of_value : CacheValue → Post
of_value v = record {
  id = v.id;
  author_id = v.author_id;
  content = v.content;
  media_url = v.media_url;
  created_at = from_milli v.created_at_unix_ms;
}

unfoldable pub encode_post : ValueJson → Post → Result Error Bytes
encode_post json p = elim (json.marshal (to_value p)) [
  | none ↦ err other
  | some encoded ↦ ok encoded
]

unfoldable pub set_commands : ValueJson → ℤ → List Post → Result Error (List Command)
set_commands json ttl [] = ok []
set_commands json ttl (p ∷ posts) =
    let rest = set_commands json ttl posts in
    elim (encode_post json p) [
      | err e ↦ err e
      | ok encoded ↦ elim rest [
        | err e ↦ err e
        | ok commands ↦ ok (set (post_key p.id) encoded ttl ∷ commands)
      ]
    ]

-- The loop over the reply to MGET, which has a value for each ID.
unfoldable pub read_cached : ValueJson → List ℤ → List Value → Map Post → Result Error (Map Post)
read_cached json (id ∷ ids) (nil ∷ values) posts = read_cached json ids values posts
read_cached json (id ∷ ids) (unexpected ∷ values) posts = err other
read_cached json (id ∷ ids) (text raw ∷ values) posts = elim (json.unmarshal raw) [
  | none ↦ err other
  | some cached ↦ read_cached json ids values (insert id (of_value cached) posts)
]
read_cached json [] values posts = ok posts
read_cached json (id ∷ ids) [] posts = ok posts

module _ {W : Type 0} (c : RedisCache W) where
  unfoldable pub set_post : Post → Exec W Error (Unit {0})
  set_post p = do
    encoded ← lift (encode_post c.json p)
    c.client.run (set (post_key p.id) encoded c.ttl)

  unfoldable pub set_many : List Post → Exec W Error (Unit {0})
  set_many [] = pure tt
  set_many (p ∷ posts) = do
    commands ← lift (set_commands c.json c.ttl (p ∷ posts))
    c.client.pipeline commands

  unfoldable pub get_many : List ℤ → Exec W Error (Map Post)
  get_many [] = pure []
  get_many (id ∷ ids) = do
    values ← c.client.mget (map post_key (id ∷ ids))
    lift (read_cached c.json (id ∷ ids) values [])

  unfoldable pub delete_and_tombstone : ℤ → Exec W Error (Unit {0})
  delete_and_tombstone post_id = c.client.tx_pipeline (
      del (post_key post_id ∷ [])
      ∷ sadd tombstones_key (format_int post_id ∷ [])
      ∷ expire tombstones_key c.tombstone_ttl
      ∷ [])
