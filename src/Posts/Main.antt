-- ===== src/Posts/Main.antt =====
-- services/post-service/cmd/server/main.go: how the server is put together from its settings, and
-- what `main` does. The clients of PostgreSQL, Redis and Kafka and the gRPC server are parameters;
-- deadlines of the startup and log lines are left out.
pub mod Bypass
use cascade_feed_ranking_eng.Common.{
  ℕ, ℤ, Bool, true, false, Option, List, Bytes, Error, Result, ok, err, Exec, pure, Map, ◌>>=◌,
  ◌>>◌, if◌then◌else◌,
}
use cascade_feed_ranking_eng.Redis.{Client}
use cascade_feed_ranking_eng.Posts.{Post}
use cascade_feed_ranking_eng.Posts.Server.{Server, Text}
use cascade_feed_ranking_eng.Posts.Repository.{Sql}
use cascade_feed_ranking_eng.Posts.Repository as Repository
use cascade_feed_ranking_eng.Posts.Cache.{ValueJson, RedisCache, new_cache}
use cascade_feed_ranking_eng.Posts.Cache as RedisPosts
use cascade_feed_ranking_eng.Posts.Cache.Noop as Noop
use cascade_feed_ranking_eng.Posts.Events as Events
use cascade_feed_ranking_eng.Posts.Config.{Config, addr, brokers}
use cascade_feed_ranking_eng.Fanout.Consumer.{Record}
use cascade_feed_ranking_eng.Json.{Object}

-- postserver.Cache
pub record Cache (W : Type 0) : Type 0 where
  pub set : Post → Exec W Error (Unit {0})
  pub set_many : List Post → Exec W Error (Unit {0})
  pub get_many : List ℤ → Exec W Error (Map Post)
  pub delete_and_tombstone : ℤ → Exec W Error (Unit {0})

-- How serving ends: by an error or the end of Serve, or by a signal, after which GracefulStop may be
-- done in time.
pub data Ending : Type 0 where
  stopped : Result Error (Unit {0}) → Ending
  signalled : Bool → Ending

-- What main calls of the libraries; the producer is ProduceSync of the Kafka client.
pub record Libraries (W : Type 0) : Type 0 where
  pub new_pool : Bytes → Exec W Error (Sql W)
  pub ping_pool : Sql W → Exec W Error (Unit {0})
  pub new_client : Bytes → Client W
  pub ping_redis : Client W → Exec W Error (Unit {0})
  pub new_kafka : List Bytes → Exec W Error (Record → Exec W Error (Unit {0}))
  pub ping_kafka : Exec W Error (Unit {0})
  pub listen : Bytes → Exec W Error (Unit {0})
  pub serve_metrics : Bytes → W → W
  pub serve : Server W → W → Ending × W
  pub force_stop : W → W
  -- the deferred calls
  pub close : W → W
  pub record_query : W → W
  pub value_json : ValueJson
  pub marshal : Object → Option Bytes
  pub text : Text

unfoldable pub redis_cache : {W : Type 0} → RedisCache W → Cache W
redis_cache c = record {
  set = RedisPosts.set_post c;
  set_many = RedisPosts.set_many c;
  get_many = RedisPosts.get_many c;
  delete_and_tombstone = RedisPosts.delete_and_tombstone c;
}

unfoldable pub noop_cache : {W : Type 0} → Cache W
noop_cache = record {
  set = Noop.set_post;
  set_many = Noop.set_many;
  get_many = Noop.get_many;
  delete_and_tombstone = Noop.delete_and_tombstone;
}

module _ {W : Type 0} (libs : Libraries W) where
  module _ (cfg : Config) where
    unfoldable pub post_cache : Client W → Cache W
    post_cache client =
        if cfg.bypass_cache
        then noop_cache
        else redis_cache (new_cache client libs.value_json cfg.cache_ttl cfg.tombstone_ttl)

    unfoldable pub new_kafka : (Record → Exec W Error (Unit {0})) → Events.Kafka W
    new_kafka produce = record {
      topic = cfg.kafka_topic;
      marshal = libs.marshal;
      produce = produce;
    }

    -- The arguments of postserver.New.
    unfoldable pub new_server : Sql W → Client W → (Record → Exec W Error (Unit {0})) → Server W
    new_server sql client produce = record {
      create = Repository.create sql;
      get_by_ids = Repository.get_by_ids sql;
      delete = Repository.delete sql;
      set = (post_cache client).set;
      set_many = (post_cache client).set_many;
      get_many = (post_cache client).get_many;
      delete_and_tombstone = (post_cache client).delete_and_tombstone;
      publish_created = Events.publish_created (new_kafka produce);
      publish_deleted = Events.publish_deleted (new_kafka produce);
      record_query = libs.record_query;
      text = libs.text;
    }

    -- From the pool to the metrics server.
    unfoldable pub start : Exec W Error (Server W)
    start = do
      sql ← libs.new_pool cfg.database_url
      libs.ping_pool sql
      let client = libs.new_client cfg.redis_addr
      libs.ping_redis client
      produce ← libs.new_kafka (brokers cfg)
      libs.ping_kafka
      libs.listen (addr cfg)
      λ w. (ok tt, libs.serve_metrics cfg.metrics_addr w)
      pure (new_server sql client produce)

  -- The exit status: 1 after an error, without the deferred calls.
  unfoldable pub finish : Ending × W → ℕ × W
  finish (stopped (ok _), w) = (0, libs.close w)
  finish (stopped (err e), w) = (1, w)
  finish (signalled in_time, w) = (0, libs.close (if in_time then w else libs.force_stop w))

  unfoldable pub serve_started : Result Error (Server W) × W → ℕ × W
  serve_started (ok server, w) = finish (libs.serve server w)
  serve_started (err e, w) = (1, w)

  unfoldable pub main : Config → W → ℕ × W
  main cfg w = serve_started (start cfg w)
