-- ===== src/Feed/Main.antt =====
-- services/feed-service/cmd/server/main.go: how the server is put together from its settings, and
-- what `main` does. The clients of PostgreSQL, Redis and Post Service and the gRPC server are
-- parameters; deadlines of the startup and log lines are left out.
pub mod Accepting
use cascade_feed_ranking_eng.Common.{
  ℕ, ℤ, Bool, true, false, Option, none, some, List, Bytes, codes, Error, Result, ok, err, Exec,
  pure, ◌>>=◌, ◌>>◌, if◌then◌else◌, Map,
}
use cascade_feed_ranking_eng.Redis.{Client}
use cascade_feed_ranking_eng.Feed.{Time, Post, CandidateSet}
use cascade_feed_ranking_eng.Feed.Float.{Float64}
use cascade_feed_ranking_eng.Feed.Candidate as Candidate
use cascade_feed_ranking_eng.Feed.Candidate.Postgres as PgCandidate
use cascade_feed_ranking_eng.Feed.Hydrator.{CachedPost, PostJson, RedisPost, hydrate}
use cascade_feed_ranking_eng.Feed.Hydrator.Postgres as PgHydrator
use cascade_feed_ranking_eng.Feed.Signals as Signals
use cascade_feed_ranking_eng.Feed.Ranking.{rank}
use cascade_feed_ranking_eng.Feed.Server.{Server}
use cascade_feed_ranking_eng.Feed.Config.{Config, addr}
use cascade_feed_ranking_eng.Feed.Metrics.{Metrics, observe_get_feed}

-- GetPosts of Post Service.
abbrev pub GetPosts : Type 0 → Type 0
GetPosts W = List ℤ → Exec W Error (List (Option CachedPost))

-- How serving ends: by an error or the end of Serve, or by a signal, after which GracefulStop may be
-- done in time.
pub data Ending : Type 0 where
  stopped : Result Error (Unit {0}) → Ending
  signalled : Bool → Ending

-- What main calls of the libraries. A pool is known by the statements that the stores run on it, and
-- `signals` takes the affinity window and the default affinity.
pub record Libraries (W F : Type 0) : Type 1 where
  pub Pool : Type 0
  pub new_pool : Bytes → Exec W Error Pool
  pub ping_pool : Pool → Exec W Error (Unit {0})
  pub candidates : Pool → PgCandidate.Postgres W
  pub posts : Pool → PgHydrator.Postgres W
  pub signals : Pool → ℤ → F → Signals.Database W F
  pub new_client : Bytes → Client W
  pub ping_redis : Client W → Exec W Error (Unit {0})
  pub dial : Bytes → Exec W Error (GetPosts W)
  pub listen : Bytes → Exec W Error (Unit {0})
  pub serve_metrics : Bytes → W → W
  pub serve : Server W F → W → Ending × W
  pub force_stop : W → W
  -- the deferred calls
  pub close : W → W
  pub metrics : Metrics W
  pub now : W → Time
  pub json : PostJson

module _ {W : Type 0} (fl : Float64) (libs : Libraries W fl.F) (cfg : Config fl.F) where
  open fl use {F}
  open libs use {Pool}

  -- `candidates` and `hydrate`: from PostgreSQL if the cache is bypassed.
  unfoldable pub candidate_store : Pool → Client W → ℤ → ℤ → Exec W Error CandidateSet
  candidate_store pool client =
      if cfg.bypass_cache then PgCandidate.load (libs.candidates pool) else Candidate.load client

  unfoldable pub redis_post : Client W → GetPosts W → RedisPost W
  redis_post client get_posts = record {
    redis = client;
    get_posts = get_posts;
    ttl = cfg.cache_ttl;
    json = libs.json;
  }

  unfoldable pub hydrator : Pool → Client W → GetPosts W → List ℤ → Exec W Error (Map Post × ℕ × ℕ)
  hydrator pool client get_posts =
      if cfg.bypass_cache
      then PgHydrator.hydrate (libs.posts pool)
      else hydrate (redis_post client get_posts)

  -- The arguments of feedserver.New.
  unfoldable pub new_server : Pool → Client W → GetPosts W → Server W F
  new_server pool client get_posts = record {
    load_candidates = candidate_store pool client;
    hydrate = hydrator pool client get_posts;
    load_signals = Signals.load fl (libs.signals pool cfg.affinity_window cfg.affinity_default);
    rank = λ posts signals w.
        rank fl
          (record {
            recency = cfg.recency_weight;
            engagement = cfg.engagement_weight;
            affinity = cfg.affinity_weight;
            half_life = cfg.recency_half_life;
          })
          (libs.now w) posts signals;
    observe = some (observe_get_feed (some libs.metrics));
    candidate_pool = cfg.candidate_pool;
    default_page_size = cfg.default_page_size;
    max_page_size = cfg.max_page_size;
  }

  -- From the pool to the metrics server.
  unfoldable pub start : Exec W Error (Server W F)
  start = do
    pool ← libs.new_pool cfg.database_url
    libs.ping_pool pool
    let client = libs.new_client cfg.redis_addr
    libs.ping_redis client
    get_posts ← libs.dial cfg.post_service_addr
    libs.listen (addr cfg)
    λ w. (ok tt, libs.serve_metrics cfg.metrics_addr w)
    pure (new_server pool client get_posts)

module _ {W : Type 0} (fl : Float64) (libs : Libraries W fl.F) where
  open fl use {F}

  -- The exit status: 1 after an error, without the deferred calls.
  unfoldable pub finish : Ending × W → ℕ × W
  finish (stopped (ok _), w) = (0, libs.close w)
  finish (stopped (err e), w) = (1, w)
  finish (signalled in_time, w) = (0, libs.close (if in_time then w else libs.force_stop w))

  unfoldable pub serve_started : Result Error (Server W F) × W → ℕ × W
  serve_started (ok server, w) = finish (libs.serve server w)
  serve_started (err e, w) = (1, w)

  unfoldable pub main : Exec W Error (Config F) → W → ℕ × W
  main load w = serve_started ((load >>= start fl libs) w)
