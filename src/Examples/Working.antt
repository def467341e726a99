-- ===== src/Examples/Working.antt =====
-- A Fanout Worker with strange settings, on libraries that do nothing but answer, whose world counts
-- the records that Kafka was given.
use cascade_feed_ranking_eng.Common.{
  ℕ, suc, ℤ, pos, lt_ℤ, nonpos, pos_part, Option, none, some, List, [], ◌∷◌, Bytes, codes, eq_bytes,
  other, ok, err, raise, pure, each, if◌then◌else◌, ◌≡◌, ◌↔◌, refl, inl, ◌-ℤ◌,
}
use cascade_feed_ranking_eng.Common.Env.{LookupEnv, get_env}
use cascade_feed_ranking_eng.Common.Decimal.{parse_int}
use cascade_feed_ranking_eng.Database.{all_rows, read_rows, read_scans}
use cascade_feed_ranking_eng.Database.Answers.{IsComplete}
use cascade_feed_ranking_eng.Redis.{Client}
use cascade_feed_ranking_eng.Fanout.{Post, PostCreated, Event}
use cascade_feed_ranking_eng.Fanout.Events.{EventJson, parse_post, parse_post_created, has_nonpos}
use cascade_feed_ranking_eng.Fanout.Timeline.{
  fanout_batch, cached_follower_count, cache_follower_count, add_celebrity_post,
}
use cascade_feed_ranking_eng.Fanout.Timeline.Batches.{IsCut}
use cascade_feed_ranking_eng.Fanout.Processor.{
  Processor, should_fanout_on_write, deliver_post, process, process_post, follower_count, use_count,
}
use cascade_feed_ranking_eng.Fanout.Repository.{
  Pool, follower_ids, list_users, list_follows, recent_posts, recent_posts_per_author, to_post,
  to_content,
}
use cascade_feed_ranking_eng.Fanout.Repository.Complete.{lists-IsComplete}
use cascade_feed_ranking_eng.Fanout.Consumer.{Record, handle}
use cascade_feed_ranking_eng.Fanout.Config.{load, get_env_int64}
use cascade_feed_ranking_eng.Fanout.Config.Valid.{IsValid, load-IsValid}
use cascade_feed_ranking_eng.Fanout.Processor.Accepted.{IsMeant}
use cascade_feed_ranking_eng.Fanout.Metrics.{Metrics, instrument}
use cascade_feed_ranking_eng.Fanout.Metrics.Instrumented.{instrument-measured}
use cascade_feed_ranking_eng.Fanout.Warm.{PostContent}
use cascade_feed_ranking_eng.Fanout.Worker.{Kafka, Libraries, new_processor, new_handler}
use cascade_feed_ranking_eng.Fanout.Worker.Composed.{worker_fanout, worker_handles}

abbrev pub client : Client ℕ
client = record {
  pipeline = λ commands. pure tt;
  tx_pipeline = λ commands. pure tt;
  run = λ command. pure tt;
  read_feed = λ timeline celebrities first last followed. pure ([], [], []);
  smismember = λ key members. pure [];
  mget = λ keys. pure [];
  get_int64 = λ key. pure none;
  scan = λ cursor pattern. pure ([], pos 0);
}

-- Lists of followers can be read, and other lists fail in the query, in a scan or at the end.
abbrev pool : Pool ℕ
pool = record {
  query_follower_count = λ id. pure (pos 3);
  query_follower_ids = λ id. pure (all_rows (pos 1 ∷ pos 2 ∷ pos 3 ∷ []));
  query_users = raise other;
  query_follows = pure (record { scans = err other ∷ []; last = none });
  query_recent_per_author = λ n. pure (all_rows []);
  query_recent = λ author n. pure (record { scans = []; last = some other });
}

lists-IsComplete_example :
    (((follower_ids pool (pos 8) 0).0 ≡ ok (pos 1 ∷ pos 2 ∷ pos 3 ∷ []))
      ↔ IsComplete (λ i. i) (pool.query_follower_ids (pos 8) 0).0 (pos 1 ∷ pos 2 ∷ pos 3 ∷ []))
    × (((list_users pool 0).0 ≡ ok []) ↔ IsComplete (λ u. u) (pool.query_users 0).0 [])
    × (((list_follows pool 0).0 ≡ ok []) ↔ IsComplete (λ e. e) (pool.query_follows 0).0 [])
    × (((recent_posts pool (pos 8) (pos 20) 0).0 ≡ ok [])
        ↔ IsComplete to_post (pool.query_recent (pos 8) (pos 20) 0).0 [])
    × (((recent_posts_per_author pool (pos 20) 0).0 ≡ ok []) ↔ (
        if nonpos (pos 20)
        then ◌≡◌ {A = List PostContent} [] []
        else IsComplete to_content (pool.query_recent_per_author (pos 20) 0).0 []))
lists-IsComplete_example =
    lists-IsComplete pool (pos 8) (pos 8) (pos 20) (pos 1 ∷ pos 2 ∷ pos 3 ∷ []) [] [] [] [] 0

-- Every variable is "-2", and no duration can be read.
abbrev env : LookupEnv
env key = some (codes "-2")

abbrev no_duration : Bytes → Option ℤ
no_duration s = none

load-IsValid_example : IsValid (load no_duration env)
load-IsValid_example = load-IsValid no_duration env

abbrev created : PostCreated
created = record {
  event_type = codes "PostCreated";
  post_id = pos 1;
  author_id = pos 8;
  created_at_unix_ms = pos 1000;
}

-- Every payload is the event of a new post.
abbrev json : EventJson
json = record {
  envelope = λ payload. some (codes "PostCreated");
  post_created = λ payload. some created;
  post_deleted = λ payload. none;
  follow_created = λ payload. none;
  follow_deleted = λ payload. none;
}

abbrev kafka : Kafka ℕ
kafka = record {
  source = record { poll = pure none; commit = λ r. pure tt; allow_rebalance = λ w. w };
  produce = λ r w. (ok tt, suc w);
}

abbrev metrics : Metrics ℕ
metrics = record {
  processed = λ topic result w. w;
  observe_lag = λ lag w. w;
  set_kafka_lag = λ topic partition lag w. w;
  now = λ w. pos 1500;
}

abbrev libs : Libraries ℕ
libs = record {
  new_pool = λ url. pure pool;
  ping_pool = λ p. pure tt;
  new_client = λ addr password db. client;
  ping_redis = λ c. pure tt;
  new_kafka = λ brokers group topics. pure kafka;
  ping_kafka = λ k. pure tt;
  serve_metrics = λ addr w. w;
  watch_lag = λ group w. w;
  pause = λ d. pure tt;
  close = λ w. w;
  metrics = metrics;
  json = json;
  now = λ w. pos 2000;
  message = λ e. codes "failed";
}

abbrev post : Post
post = record { id = pos 1; created_at_unix_ms = pos 1000 }

-- The threshold is -2: only an author with fewer followers is below it.
worker_fanout_example :
    (batches : List (List ℤ)) × IsCut
      (pos_part (load no_duration env).fanout_batch_size)
      (pos 1 ∷ pos 2 ∷ pos 3 ∷ [])
      batches
    × (deliver_post
          (new_processor libs (load no_duration env) pool client)
          created
          post
          (pos 0 -ℤ pos 3)
          0
        ≡ each
            (fanout_batch
              (new_processor libs (load no_duration env) pool client).timeline
              post
              (load no_duration env).max_timeline_len)
            batches
            0)
unfolding should_fanout_on_write lt_ℤ load get_env_int64 parse_int follower_ids read_rows read_scans
    ◌-ℤ◌
worker_fanout_example =
    worker_fanout libs no_duration env pool client created post (pos 0 -ℤ pos 3)
      (pos 1 ∷ pos 2 ∷ pos 3 ∷ []) 0 0 refl refl

-- A record of the topic "-2", which is that of the posts and of the follows.
abbrev poison : Record
poison = record {
  topic = codes "-2";
  partition = pos 0;
  offset = pos 0;
  key = [];
  value = codes "poison";
  headers = [];
}

worker_handles_example :
    (handle (new_handler libs (load no_duration env) pool client kafka) poison 0).0 ≡ ok tt
unfolding load get_env
worker_handles_example =
    worker_handles libs no_duration env pool client kafka poison (inl refl) (λ r w. refl)
      (λ d w. refl) 0

abbrev processor : Processor ℕ
processor = record {
  repository = record {
    follower_count = λ id. pure (pos 3);
    follower_ids = λ id. pure [];
    recent_posts = λ id n. pure [];
  };
  timeline = record { client = client; cache_ttl = pos 1; tombstone_ttl = pos 1 };
  settings = record {
    post_topic = codes "post-events";
    follow_topic = codes "follow-events";
    celebrity_follower_threshold = pos 1;
    max_timeline_len = pos 1000;
    backfill_count = pos 20;
    fanout_batch_size = 2;
  };
  json = json;
}

instrument-measured_example :
    (e : Event) × IsMeant processor (codes "post-events") [] e
    × (instrument json (process processor) (some metrics) (codes "post-events") [] 0 ≡ (ok tt, 0))
unfolding process parse_post parse_post_created has_nonpos nonpos process_post follower_count
    use_count cached_follower_count cache_follower_count deliver_post should_fanout_on_write lt_ℤ
    add_celebrity_post eq_bytes
instrument-measured_example = instrument-measured metrics processor (codes "post-events") [] 0 refl
