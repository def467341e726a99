-- ===== src/Fanout/Timeline.antt =====
-- services/fanout-worker/internal/timeline/redis.go: the timelines, the celebrity posts and the
-- follower counts in Redis.

pub mod Batches
pub mod Replay
pub mod Written
use cascade_feed_ranking_eng.Common.{
  ℕ, zero, suc, ◌+◌, ◌-◌, min, ltb, ℤ, pos, pos_part, ◌-ℤ◌, nonpos, eq_ℤ, Bool, true, false, not,
  Option, none, some, List, [], ◌∷◌, ◌++◌, map, length, take, drop, is_empty, Bytes, codes, Error,
  other, Result, ok, err, Exec, pure, raise, ◌>>=◌, ◌>>◌, if◌then◌else◌,
}
use cascade_feed_ranking_eng.Common.Decimal.{format_int}
use cascade_feed_ranking_eng.Redis.{
  Client, Command, zadd, zremrangebyrank, sadd, srem, expire, del, set, timeline_key,
  celebrity_following_key, follower_count_key, celebrity_posts_key, tombstones_key,
}
use cascade_feed_ranking_eng.Fanout.{Post}

-- 24 hours, and durations in nanoseconds.
abbrev pub day : ℤ
day = pos 86400000000000

pub record Redis (W : Type 0) : Type 0 where
  pub client : Client W
  pub cache_ttl : ℤ
  pub tombstone_ttl : ℤ

unfoldable pub new_redis : {W : Type 0} → Client W → ℤ → ℤ → Redis W
new_redis client cache_ttl tombstone_ttl = record {
  client = client;
  cache_ttl = cache_ttl;
  tombstone_ttl = if nonpos tombstone_ttl then day else tombstone_ttl;
}

-- A post as an entry of a sorted set.
abbrev pub entry : Post → Bytes × ℤ
entry post = (format_int post.id, post.created_at_unix_ms)

-- ZREMRANGEBYRANK key 0 (-maxLen-1): all but the newest `max_len`.
unfoldable pub trim : Bytes → ℤ → Command
trim key max_len = zremrangebyrank key (pos 0) ((pos 0 -ℤ max_len) -ℤ pos 1)

unfoldable pub fanout_commands : Post → ℤ → List ℤ → List Command
fanout_commands post max_len [] = []
fanout_commands post max_len (follower_id ∷ follower_ids) =
    zadd (timeline_key follower_id) (entry post ∷ [])
    ∷ trim (timeline_key follower_id) max_len
    ∷ fanout_commands post max_len follower_ids

-- UserWarmState
pub record UserWarmState : Type 0 where
  pub user_id : ℤ
  pub follower_count : ℤ
  pub timeline_posts : List Post
  pub celebrity_ids : List ℤ

-- `ZADD key entries...` and the trim, if there are any.
unfoldable pub add_posts : Bytes → ℤ → List Post → List Command
add_posts key max_len [] = []
add_posts key max_len (post ∷ posts) = zadd key (map entry (post ∷ posts)) ∷ trim key max_len ∷ []

unfoldable pub add_celebrities : Bytes → List ℤ → List Command
add_celebrities key [] = []
add_celebrities key (id ∷ ids) = sadd key (map format_int (id ∷ ids)) ∷ []

-- `for start := 0; start < len(xs); start += batchSize { f(xs[start:min(start+batchSize, len(xs))]) }`,
-- where an error of `f` is returned. Each pass advances by `batch_size`: with a positive one, a fuel
-- of the length of `xs` is never used up.
unfoldable pub each_batch :
    {W A : Type 0}
    → (List A → Exec W Error (Unit {0}))
    → ℕ
    → ℕ
    → List A
    → ℕ
    → Exec W Error (Unit {0})
each_batch f zero start xs batch_size = if ltb start (length xs) then raise other else pure tt
each_batch f (suc fuel) start xs batch_size =
    let end = min (start + batch_size) (length xs) in
    let rest = each_batch f fuel (start + batch_size) xs batch_size in
    if ltb start (length xs) then f (take (end - start) (drop start xs)) >> rest else pure tt

module _ {W : Type 0} (r : Redis W) where
  unfoldable pub cached_follower_count : ℤ → Exec W Error (Option ℤ)
  cached_follower_count user_id = r.client.get_int64 (follower_count_key user_id)

  unfoldable pub cache_follower_count : ℤ → ℤ → Exec W Error (Unit {0})
  cache_follower_count user_id count =
      r.client.run (set (follower_count_key user_id) (format_int count) r.cache_ttl)

  unfoldable pub invalidate_follower_count : ℤ → Exec W Error (Unit {0})
  invalidate_follower_count user_id = r.client.run (del (follower_count_key user_id ∷ []))

  unfoldable pub fanout_batch : Post → ℤ → List ℤ → Exec W Error (Unit {0})
  fanout_batch post max_len follower_ids =
      r.client.pipeline (fanout_commands post max_len follower_ids)

  unfoldable pub fanout_post : List ℤ → Post → ℤ → ℕ → Exec W Error (Unit {0})
  fanout_post follower_ids post max_len batch_size =
      each_batch (fanout_batch post max_len) (length follower_ids) 0 follower_ids batch_size

  unfoldable pub add_celebrity_post : Post → ℤ → Exec W Error (Unit {0})
  add_celebrity_post post max_len =
      r.client.tx_pipeline
        (zadd celebrity_posts_key (entry post ∷ []) ∷ trim celebrity_posts_key max_len ∷ [])

  unfoldable pub add_tombstone : ℤ → Exec W Error (Unit {0})
  add_tombstone post_id =
      r.client.tx_pipeline
        (sadd tombstones_key (format_int post_id ∷ []) ∷ expire tombstones_key r.tombstone_ttl ∷ [])

  unfoldable pub backfill : ℤ → List Post → ℤ → Exec W Error (Unit {0})
  backfill follower_id [] max_len = pure tt
  backfill follower_id (post ∷ posts) max_len =
      r.client.tx_pipeline (add_posts (timeline_key follower_id) max_len (post ∷ posts))

  unfoldable pub add_celebrity_follow : ℤ → ℤ → Exec W Error (Unit {0})
  add_celebrity_follow follower_id followee_id =
      r.client.run (sadd (celebrity_following_key follower_id) (format_int followee_id ∷ []))

  unfoldable pub remove_celebrity_follow : ℤ → ℤ → Exec W Error (Unit {0})
  remove_celebrity_follow follower_id followee_id =
      r.client.run (srem (celebrity_following_key follower_id) (format_int followee_id ∷ []))

  -- The pipeline of WarmUsers for one batch of users.
  unfoldable pub warm_commands : ℤ → List UserWarmState → List Command
  warm_commands max_len [] = []
  warm_commands max_len (state ∷ states) =
      del (timeline_key state.user_id ∷ celebrity_following_key state.user_id ∷ []) ∷ []
      ++ add_posts (timeline_key state.user_id) max_len state.timeline_posts
      ++ add_celebrities (celebrity_following_key state.user_id) state.celebrity_ids
      ++ (set (follower_count_key state.user_id) (format_int state.follower_count) r.cache_ttl
          ∷ warm_commands max_len states)

  unfoldable pub warm_batch : ℤ → List UserWarmState → Exec W Error (Unit {0})
  warm_batch max_len states = r.client.pipeline (warm_commands max_len states)

  -- A batch size of 0 or less is 100.
  unfoldable pub warm_users : List UserWarmState → ℤ → ℤ → Exec W Error (Unit {0})
  warm_users states max_len batch_size =
      each_batch (warm_batch max_len) (length states) 0 states
        (if nonpos batch_size then 100 else pos_part batch_size)

  unfoldable pub replace_celebrity_posts : List Post → ℤ → Exec W Error (Unit {0})
  replace_celebrity_posts posts max_len =
      r.client.tx_pipeline
        (del (celebrity_posts_key ∷ []) ∷ add_posts celebrity_posts_key max_len posts)

  -- The SCAN loop, with a fuel: Redis ends a scan by the cursor 0.
  unfoldable pub delete_from : ℕ → ℤ → Bytes → Exec W Error (Unit {0})
  delete_from zero cursor pattern = raise other
  delete_from (suc fuel) cursor pattern = do
    (keys, next) ← r.client.scan cursor pattern
    if is_empty keys then pure tt else r.client.run (del keys)
    if eq_ℤ next (pos 0) then pure tt else delete_from fuel next pattern

  unfoldable pub delete_by_pattern : ℕ → Bytes → Exec W Error (Unit {0})
  delete_by_pattern fuel = delete_from fuel (pos 0)

  unfoldable pub delete_warmable_keys : ℕ → Exec W Error (Unit {0})
  delete_warmable_keys fuel = do
    delete_by_pattern fuel (codes "timeline:*")
    delete_by_pattern fuel (codes "following:celebrities:*")
    delete_by_pattern fuel (codes "fanout:follower_count:*")
    r.client.run (del (celebrity_posts_key ∷ []))
