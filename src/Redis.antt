-- ===== src/Redis.antt =====
-- Redis as the services use it through go-redis: the commands that a pipeline carries, and a client
-- whose effect on the world `W` is a parameter. The score of a sorted set is the float64 of a number
-- of milliseconds, and is kept as that number.
use cascade_feed_ranking_eng.Common.Decimal.{format_int}
use cascade_feed_ranking_eng.Common.{ℤ, Bool, Option, List, Bytes, Error, Exec, codes, ◌++◌}

pub data Command : Type 0 where
  zadd : Bytes → List (Bytes × ℤ) → Command
  zremrangebyrank : Bytes → ℤ → ℤ → Command
  sadd : Bytes → List Bytes → Command
  srem : Bytes → List Bytes → Command
  expire : Bytes → ℤ → Command
  del : List Bytes → Command
  set : Bytes → Bytes → ℤ → Command

-- An element of the reply to MGET: nil, a string, or a value of another type.
pub data Value : Type 0 where
  nil : Value
  text : Bytes → Value
  unexpected : Value

pub record Client (W : Type 0) : Type 0 where
  -- a pipeline, and a pipeline inside MULTI/EXEC
  pub pipeline : List Command → Exec W Error (Unit {0})
  pub tx_pipeline : List Command → Exec W Error (Unit {0})
  -- one command by itself
  pub run : Command → Exec W Error (Unit {0})
  -- ZREVRANGE of two sorted sets between two ranks, and SMEMBERS of a set, in one pipeline
  pub read_feed :
      Bytes → Bytes → ℤ → ℤ → Bytes → Exec W Error (List Bytes × List Bytes × List Bytes)
  pub smismember : Bytes → List Bytes → Exec W Error (List Bool)
  pub mget : List Bytes → Exec W Error (List Value)
  -- `Get(key).Int64()`, where `none` is `redis.Nil`
  pub get_int64 : Bytes → Exec W Error (Option ℤ)
  -- SCAN from a cursor: a batch of keys, and the next cursor
  pub scan : ℤ → Bytes → Exec W Error (List Bytes × ℤ)

unfoldable pub key_of : Bytes → ℤ → Bytes
key_of prefix id = prefix ++ format_int id

abbrev pub tombstones_key : Bytes
tombstones_key = codes "tombstones"

abbrev pub celebrity_posts_key : Bytes
celebrity_posts_key = codes "celebrity_posts:global"

-- "timeline:%d", "following:celebrities:%d", "fanout:follower_count:%d", "post:%d"
unfoldable pub timeline_key : ℤ → Bytes
timeline_key = key_of (codes "timeline:")

unfoldable pub celebrity_following_key : ℤ → Bytes
celebrity_following_key = key_of (codes "following:celebrities:")

unfoldable pub follower_count_key : ℤ → Bytes
follower_count_key = key_of (codes "fanout:follower_count:")

unfoldable pub post_key : ℤ → Bytes
post_key = key_of (codes "post:")
