-- ===== src/Fanout/Worker.antt =====
-- services/fanout-worker/cmd/worker/main.go: how the worker is put together from its settings, and
-- what `main` does. The clients of PostgreSQL, Redis and Kafka are parameters. The deadline of the
-- three pings and log lines are left out.
pub mod Composed
use cascade_feed_ranking_eng.Common.{
  ℕ, ℤ, pos_part, Bool, true, false, Option, none, some, List, [], ◌∷◌, Bytes, Error, Result, ok,
  err, Exec, pure, ◌>>=◌, ◌>>◌, if◌then◌else◌,
}
use cascade_feed_ranking_eng.Redis.{Client}
use cascade_feed_ranking_eng.Fanout.Events.{EventJson}
use cascade_feed_ranking_eng.Fanout.Timeline.{Redis, new_redis}
use cascade_feed_ranking_eng.Fanout.Repository.{Pool, follower_count, follower_ids, recent_posts}
use cascade_feed_ranking_eng.Fanout.Processor.{Repository, Settings, Processor, process}
use cascade_feed_ranking_eng.Fanout.Consumer.{
  Record, RecordHandler, RecordSource, KafkaPublisher, is_canceled, publish_dlq, run,
}
use cascade_feed_ranking_eng.Fanout.Config.{Config}
use cascade_feed_ranking_eng.Fanout.Metrics.{Metrics, instrument}

-- `kgo.Client`, with the record source around it.
pub record Kafka (W : Type 0) : Type 0 where
  pub source : RecordSource W
  pub produce : Record → Exec W Error (Unit {0})

-- What main calls of the libraries. `pause` waits for a duration or until the signal.
pub record Libraries (W : Type 0) : Type 0 where
  pub new_pool : Bytes → Exec W Error (Pool W)
  pub ping_pool : Pool W → Exec W Error (Unit {0})
  pub new_client : Bytes → Bytes → ℤ → Client W
  pub ping_redis : Client W → Exec W Error (Unit {0})
  -- the brokers, the consumer group and the topics
  pub new_kafka : List Bytes → Bytes → List Bytes → Exec W Error (Kafka W)
  pub ping_kafka : Kafka W → Exec W Error (Unit {0})
  pub serve_metrics : Bytes → W → W
  pub watch_lag : Bytes → W → W
  pub pause : ℤ → Exec W Error (Unit {0})
  -- the deferred calls
  pub close : W → W
  pub metrics : Metrics W
  pub json : EventJson
  pub now : W → ℤ
  pub message : Error → Bytes

unfoldable pub settings_of : Config → Settings
settings_of cfg = record {
  post_topic = cfg.post_topic;
  follow_topic = cfg.follow_topic;
  celebrity_follower_threshold = cfg.celebrity_follower_threshold;
  max_timeline_len = cfg.max_timeline_len;
  backfill_count = cfg.backfill_count;
  fanout_batch_size = pos_part cfg.fanout_batch_size;
}

module _ {W : Type 0} where
  -- repository.NewPostgres as the Repository of the processor.
  unfoldable pub new_postgres : Pool W → Repository W
  new_postgres pool = record {
    follower_count = follower_count pool;
    follower_ids = follower_ids pool;
    recent_posts = recent_posts pool;
  }

  module _ (libs : Libraries W) (cfg : Config) where
    unfoldable pub new_processor : Pool W → Client W → Processor W
    new_processor pool client = record {
      repository = new_postgres pool;
      timeline = new_redis client cfg.follower_count_cache_ttl cfg.tombstone_ttl;
      settings = settings_of cfg;
      json = libs.json;
    }

    unfoldable pub new_publisher : Kafka W → KafkaPublisher W
    new_publisher kafka = record {
      post_topic = cfg.post_topic;
      follow_topic = cfg.follow_topic;
      post_dlq_topic = cfg.post_dlq_topic;
      follow_dlq_topic = cfg.follow_dlq_topic;
      produce = kafka.produce;
      now = libs.now;
      message = libs.message;
    }

    -- The processor of the handler counts what it handles.
    unfoldable pub new_handler : Pool W → Client W → Kafka W → RecordHandler W
    new_handler pool client kafka = record {
      process = instrument libs.json (process (new_processor pool client)) (some libs.metrics);
      publish_dlq = publish_dlq (new_publisher kafka);
      sleep = libs.pause;
      max_retries = pos_part cfg.max_retries;
      backoff = cfg.retry_backoff;
    }

    -- From the configuration to the metrics server and the watch on the lag.
    unfoldable pub start : Exec W Error (RecordSource W × RecordHandler W)
    start = do
      pool ← libs.new_pool cfg.database_url
      let client = libs.new_client cfg.redis_addr cfg.redis_password cfg.redis_db
      kafka ←
          libs.new_kafka cfg.kafka_brokers cfg.consumer_group
            (cfg.post_topic ∷ cfg.follow_topic ∷ [])
      libs.ping_pool pool
      libs.ping_redis client
      libs.ping_kafka kafka
      λ w. (ok tt, libs.watch_lag cfg.consumer_group (libs.serve_metrics cfg.metrics_addr w))
      pure (kafka.source, new_handler pool client kafka)

    -- The exit status is 1 after an error, without the deferred calls, and 0 after a return.
    unfoldable pub exit : Option (Result Error (Unit {0})) × W → Option ℕ × W
    exit (none, w) = (none, w)
    exit (some (ok _), w) = (some 0, libs.close w)
    exit (some (err e), w) = if is_canceled e then (some 0, libs.close w) else (some 1, w)

    unfoldable pub serve : ℕ → Result Error (RecordSource W × RecordHandler W) × W → Option ℕ × W
    serve polls (err e, w) = (some 1, w)
    serve polls (ok started, w) = exit (run started.0 started.1 polls w)

    -- `main`, or `none` if Run has not returned within `polls` polls.
    unfoldable pub main : ℕ → W → Option ℕ × W
    main polls w = serve polls (start w)
