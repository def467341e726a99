-- ===== src/Fanout/Config/Valid.antt =====
-- The settings that config.go gives, whatever the environment holds.
use cascade_feed_ranking_eng.Common.{
  codes, All, ℤ, pos, lt_ℤ, nonpos, Bool-cases, false, Option, Option-cases, Bytes, [], is_empty,
  ◌≡◌, refl, inl, inr, arith,
}
use cascade_feed_ranking_eng.Common.Env.{LookupEnv, get_env}
use cascade_feed_ranking_eng.Common.Env.Csv.{IsName, split_csv_lem}
use cascade_feed_ranking_eng.Fanout.Config.{
  Config, get_env_int, get_env_non_negative_int, get_env_duration, load,
}

module _ (env : LookupEnv) where
  get_env-filled :
      (key fallback : Bytes)
      → is_empty fallback ≡ false
      → is_empty (get_env env key fallback) ≡ false
  unfolding get_env
  get_env-filled key fallback h = elim (Option-cases (env key)) [
    | inl unset ↦ rw (unset, get_env) h
    | inr (v, found) ↦ rw (found, get_env) (ground arith)
  ]

  get_env_int-positive :
      (key : Bytes) (fallback : ℤ)
      → nonpos fallback ≡ false
      → nonpos (get_env_int env key fallback) ≡ false
  unfolding get_env_int
  get_env_int-positive key fallback h = ground arith

  get_env_non_negative_int-bounded :
      (key : Bytes) (fallback : ℤ)
      → lt_ℤ fallback (pos 0) ≡ false
      → lt_ℤ (get_env_non_negative_int env key fallback) (pos 0) ≡ false
  unfolding get_env_non_negative_int
  get_env_non_negative_int-bounded key fallback h = ground arith

  get_env_duration-positive :
      (parse_duration : Bytes → Option ℤ) (key : Bytes) (fallback : ℤ)
      → nonpos fallback ≡ false
      → nonpos (get_env_duration parse_duration env key fallback) ≡ false
  unfolding get_env_duration
  get_env_duration-positive parse_duration key fallback h =
      elim (Bool-cases (is_empty (get_env env key []))) [
        | inl unset ↦ rw unset h
        | inr set ↦ elim (Option-cases (parse_duration (get_env env key []))) [
          | inl bad ↦ rw (set, bad) h
          | inr (d, good) ↦ rw (set, good) (ground arith)
        ]
      ]

-- What the worker relies on: a batch of at least one follower, a number of retries, and durations that
-- are positive.
pub record IsValid (c : Config) : Type 0 where
  pub batch : nonpos c.fanout_batch_size ≡ false
  pub retries : lt_ℤ c.max_retries (pos 0) ≡ false
  pub backoff : nonpos c.retry_backoff ≡ false
  pub cache_ttl : nonpos c.follower_count_cache_ttl ≡ false
  pub tombstone_ttl : nonpos c.tombstone_ttl ≡ false
  pub startup : nonpos c.startup_timeout ≡ false
  pub post_topic : is_empty c.post_topic ≡ false
  pub follow_topic : is_empty c.follow_topic ≡ false
  pub post_dlq : is_empty c.post_dlq_topic ≡ false
  pub follow_dlq : is_empty c.follow_dlq_topic ≡ false
  pub brokers : All IsName c.kafka_brokers

-- Whatever the environment holds, Load gives a positive batch size, a number of retries that is not
-- negative, positive durations, topics that are not empty, and broker names that are trimmed, not empty
-- and without commas.
pub load-IsValid :
    (parse_duration : Bytes → Option ℤ) (env : LookupEnv) → IsValid (load parse_duration env)
unfolding load nonpos lt_ℤ
load-IsValid parse_duration env = record {
  batch = get_env_int-positive env _ (pos 500) refl;
  retries = get_env_non_negative_int-bounded env _ (pos 3) refl;
  backoff = get_env_duration-positive env parse_duration _ (pos 250000000) refl;
  cache_ttl = get_env_duration-positive env parse_duration _ (pos 60000000000) refl;
  tombstone_ttl = get_env_duration-positive env parse_duration _ (pos 86400000000000) refl;
  startup = get_env_duration-positive env parse_duration _ (pos 5000000000) refl;
  post_topic = get_env-filled env _ (codes "post-events") refl;
  follow_topic = get_env-filled env _ (codes "follow-events") refl;
  post_dlq = get_env-filled env _ (codes "post-events.dlq") refl;
  follow_dlq = get_env-filled env _ (codes "follow-events.dlq") refl;
  brokers = (split_csv_lem (get_env env (codes "KAFKA_BROKERS") (codes "localhost:9092"))).0;
}
