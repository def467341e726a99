-- ===== src/Fanout/WarmCommand.antt =====
-- services/fanout-worker/cmd/warm-cache/main.go: the command that runs the warm job once. Its flags
-- are arguments; PostgreSQL and Redis are parameters, as are the rounds of SCAN that Redis needs.
use cascade_feed_ranking_eng.Common.{
  ℕ, ℤ, Bool, some, Option, Bytes, Error, Result, ok, err, Exec, ◌>>=◌, ◌>>◌,
}
use cascade_feed_ranking_eng.Redis.{Client}
use cascade_feed_ranking_eng.Fanout.Config.{Config}
use cascade_feed_ranking_eng.Fanout.Timeline.{
  new_redis, warm_users, replace_celebrity_posts, delete_warmable_keys,
}
use cascade_feed_ranking_eng.Fanout.Repository.{
  Pool, list_users, list_follows, recent_posts_per_author,
}
use cascade_feed_ranking_eng.Fanout.Warm.{
  PostContent, WarmSettings, WarmResult, Warmer, new_settings, run_warmer,
}

pub record Flags : Type 0 where
  pub reset : Bool
  pub warm_posts : Bool
  pub post_ttl : ℤ

pub record Libraries (W : Type 0) : Type 0 where
  pub new_pool : Bytes → Exec W Error (Pool W)
  pub ping_pool : Pool W → Exec W Error (Unit {0})
  pub new_client : Bytes → Bytes → ℤ → Client W
  pub ping_redis : Client W → Exec W Error (Unit {0})
  pub marshal : PostContent → Option Bytes
  pub scan_rounds : ℕ

module _ {W : Type 0} (libs : Libraries W) (flags : Flags) (cfg : Config) where
  unfoldable pub warm_settings : WarmSettings
  warm_settings = record {
    celebrity_follower_threshold = cfg.celebrity_follower_threshold;
    max_timeline_len = cfg.max_timeline_len;
    backfill_count = cfg.backfill_count;
    batch_size = cfg.fanout_batch_size;
    post_cache_ttl = flags.post_ttl;
    reset = flags.reset;
    warm_posts = flags.warm_posts;
  }

  -- warm.New over the repository and the timelines.
  unfoldable pub new_warmer : Pool W → Client W → Warmer W
  new_warmer pool client =
      let redis = new_redis client cfg.follower_count_cache_ttl cfg.tombstone_ttl in
      record {
        list_users = list_users pool;
        list_follows = list_follows pool;
        recent_posts_per_author = recent_posts_per_author pool;
        delete_warmable_keys = delete_warmable_keys redis libs.scan_rounds;
        warm_users = warm_users redis;
        replace_celebrity_posts = replace_celebrity_posts redis;
        posts = some client;
        marshal = libs.marshal;
        settings = new_settings warm_settings;
      }

  unfoldable pub warm_once : Exec W Error WarmResult
  warm_once = do
    pool ← libs.new_pool cfg.database_url
    let client = libs.new_client cfg.redis_addr cfg.redis_password cfg.redis_db
    libs.ping_pool pool
    libs.ping_redis client
    run_warmer (new_warmer pool client)

  unfoldable pub exit_status : Result Error WarmResult × W → ℕ × W
  exit_status (ok result, w) = (0, w)
  exit_status (err e, w) = (1, w)

  -- `main` always exits without the deferred calls.
  unfoldable pub main : W → ℕ × W
  main w = exit_status (warm_once w)
