-- ===== src/Fanout/Worker/Composed.antt =====
-- What holds of the worker that main.go puts together, in any environment.
use cascade_feed_ranking_eng.Common.{
  ℕ, ◌<◌, ℤ, nonpos, pos_part, true, false, Option, List, Bytes, eq_bytes, eq_bytes_refl, is_empty,
  Error, ok, each, Bool-cases, if◌then◌else◌, ◌≡◌, refl, sym, ap, ◌∙◌, inl, inr, ◌⊎◌, arith,
}
use cascade_feed_ranking_eng.Common.Env.{LookupEnv}
use cascade_feed_ranking_eng.Redis.{Client}
use cascade_feed_ranking_eng.Fanout.{Post, PostCreated}
use cascade_feed_ranking_eng.Fanout.Timeline.{fanout_batch}
use cascade_feed_ranking_eng.Fanout.Timeline.Batches.{IsCut, fanout_post-IsCut}
use cascade_feed_ranking_eng.Fanout.Repository.{Pool, follower_ids}
use cascade_feed_ranking_eng.Fanout.Processor.{should_fanout_on_write, deliver_post}
use cascade_feed_ranking_eng.Fanout.Consumer.{
  Record, dlq_topic, handle, produce_failed, publish_dlq,
}
use cascade_feed_ranking_eng.Fanout.Consumer.Retries.{handle-ok}
use cascade_feed_ranking_eng.Fanout.Config.{Config, load}
use cascade_feed_ranking_eng.Fanout.Config.Valid.{load-IsValid}
use cascade_feed_ranking_eng.Fanout.Worker.{
  Kafka, Libraries, new_postgres, settings_of, new_processor, new_publisher, new_handler,
}

positive_part : (n : ℤ) → nonpos n ≡ false → 0 < pos_part n
unfolding nonpos
positive_part n h = ground arith

module _ {W : Type 0} (libs : Libraries W) (parse_duration : Bytes → Option ℤ)
    (env : LookupEnv) where
  abbrev pub cfg : Config
  cfg = load parse_duration env

  -- Whatever the environment holds, the worker writes a new post of an author below the threshold to
  -- all the followers that the database lists, in their order, in pipelines of at most the batch size;
  -- it stops at the first that fails, and always ends.
  pub worker_fanout :
      (pool : Pool W) (client : Client W) (event : PostCreated) (post : Post) (count : ℤ)
      (followers : List ℤ) (w w' : W)
      → should_fanout_on_write count cfg.celebrity_follower_threshold ≡ true
      → follower_ids pool event.author_id w ≡ (ok followers, w')
      → (batches : List (List ℤ)) × IsCut (pos_part cfg.fanout_batch_size) followers batches
        × (deliver_post (new_processor libs cfg pool client) event post count w
            ≡ each
                (fanout_batch
                  (new_processor libs cfg pool client).timeline
                  post
                  cfg.max_timeline_len)
                batches
                w')
  unfolding deliver_post new_processor new_postgres settings_of
  worker_fanout pool client event post count followers w w' below listed =
      let p = new_processor libs cfg pool client in
      let (batches, cut, same) =
        fanout_post-IsCut p.timeline followers post cfg.max_timeline_len
          (pos_part cfg.fanout_batch_size)
          (positive_part cfg.fanout_batch_size (load-IsValid parse_duration env).batch) in
      (batches, cut, rw (below, listed) (same w'))

  -- A record of a topic that the worker consumes always has a dead letter topic with a name: its
  -- failure is published there, and never meets the error "no DLQ configured", whatever the
  -- environment holds. Where both topics are the same, it is the one of follows.
  pub worker_dlq :
      (kafka : Kafka W) (original : Record) (named : Bytes) (error : Error) (attempts : ℕ)
      → (original.topic ≡ cfg.post_topic) ⊎ (original.topic ≡ cfg.follow_topic)
      → let dlq =
          if eq_bytes original.topic cfg.follow_topic
          then cfg.follow_dlq_topic
          else cfg.post_dlq_topic in
        (is_empty dlq ≡ false)
        × ((w : W)
            → publish_dlq (new_publisher libs cfg kafka) original named error attempts w
              ≡ produce_failed (new_publisher libs cfg kafka) dlq original error attempts w)
  unfolding publish_dlq new_publisher
  worker_dlq kafka original named error attempts consumed =
      let valid = load-IsValid parse_duration env in
      elim (Bool-cases (eq_bytes original.topic cfg.follow_topic)) [
        | inl follow ↦ rw follow (valid.follow_dlq, λ w. refl)
        | inr not_follow ↦ elim consumed [
          | inl posts ↦
              let post = ap (eq_bytes original.topic) (sym posts) ∙ eq_bytes_refl original.topic in
              rw (not_follow, post) (valid.post_dlq, λ w. refl)
          | inr follows ↦
              let follow =
                ap (eq_bytes original.topic) (sym follows) ∙ eq_bytes_refl original.topic in
              absurd (let bad = sym follow ∙ not_follow in cc)
        ]
      ]

  -- A poison record never holds the worker up: if Kafka takes what is produced and no pause is
  -- interrupted, then Handle of the worker ends without an error for every record of a topic that it
  -- consumes, whatever the record holds and whatever fails in handling it, in any environment.
  pub worker_handles :
      (pool : Pool W) (client : Client W) (kafka : Kafka W) (original : Record)
      → (original.topic ≡ cfg.post_topic) ⊎ (original.topic ≡ cfg.follow_topic)
      → ((r : Record) (w : W) → (kafka.produce r w).0 ≡ ok tt)
      → ((d : ℤ) (w : W) → (libs.pause d w).0 ≡ ok tt)
      → (w : W) → (handle (new_handler libs cfg pool client kafka) original w).0 ≡ ok tt
  unfolding new_handler produce_failed new_publisher
  worker_handles pool client kafka original consumed takes paused w =
      handle-ok (new_handler libs cfg pool client kafka) original
        (λ error attempts w₁.
          let named = dlq_topic original.topic in
          let (_, published) = worker_dlq kafka original named error attempts consumed in
          ap (λ a. a.0) (published w₁) ∙ takes _ w₁)
        paused w
