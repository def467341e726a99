-- ===== src/Fanout/Timeline/Written.antt =====
-- What redis.go's FanoutPost and WarmUsers write to Redis, command by command.
use cascade_feed_ranking_eng.Common.{
  ℕ, ◌<◌, ℤ, pos, ◌-ℤ◌, nonpos, pos_part, List, [], ◌∷◌, ◌++◌, map, append_assoc, each,
  if◌then◌else◌, ◌≡◌, refl, sym, ap, ◌∙◌,
}
use cascade_feed_ranking_eng.Common.Decimal.{format_int}
use cascade_feed_ranking_eng.Redis.{
  Command, zadd, zremrangebyrank, sadd, del, set, timeline_key, celebrity_following_key,
  follower_count_key,
}
use cascade_feed_ranking_eng.Fanout.{Post}
use cascade_feed_ranking_eng.Fanout.Timeline.{
  Redis, UserWarmState, trim, fanout_commands, fanout_batch, fanout_post, add_posts,
  add_celebrities, warm_commands, warm_batch, warm_users,
}
use cascade_feed_ranking_eng.Fanout.Timeline.Batches.{
  concat, IsCut, each_same, fanout_post-IsCut, warm_users-IsCut,
}

-- The post is added to the timeline of the follower, which keeps its newest `max_len` entries.
abbrev pub follower_commands : Post → ℤ → ℤ → List Command
follower_commands post max_len follower_id =
    zadd (timeline_key follower_id) ((format_int post.id, post.created_at_unix_ms) ∷ [])
    ∷ zremrangebyrank (timeline_key follower_id) (pos 0) ((pos 0 -ℤ max_len) -ℤ pos 1)
    ∷ []

fanout_commands-concat :
    (post : Post) (max_len : ℤ) (ids : List ℤ)
    → fanout_commands post max_len ids ≡ concat (map (follower_commands post max_len) ids)
unfolding fanout_commands trim concat
fanout_commands-concat post max_len [] = refl
fanout_commands-concat post max_len (id ∷ ids) = rw (fanout_commands-concat post max_len ids) refl

-- FanoutPost with a positive batch size adds the post to the timeline of every follower, and cuts it to
-- its newest entries, in the order of the list and in pipelines of at most that many followers; it stops
-- at the first pipeline that fails, and always ends.
pub fanout_post_lem :
    {W : Type 0} (r : Redis W) (follower_ids : List ℤ) (post : Post) (max_len : ℤ) (batch_size : ℕ)
    → 0 < batch_size
    → (batches : List (List ℤ)) × IsCut batch_size follower_ids batches
      × ((w : W)
          → fanout_post r follower_ids post max_len batch_size w
            ≡ each
                (λ batch. r.client.pipeline (concat (map (follower_commands post max_len) batch)))
                batches
                w)
unfolding fanout_batch
fanout_post_lem r follower_ids post max_len batch_size h =
    let (batches, cut, same) = fanout_post-IsCut r follower_ids post max_len batch_size h in
    (
      batches,
      cut,
      λ w.
          same w
          ∙ each_same _ _
              (λ ids w₁.
                ap (λ cs. r.client.pipeline cs w₁) (fanout_commands-concat post max_len ids))
              batches w,
    )

abbrev timeline_commands : ℤ → ℤ → List Post → List Command
timeline_commands user_id max_len [] = []
timeline_commands user_id max_len (post ∷ posts) =
    zadd (timeline_key user_id) (map (λ p. (format_int p.id, p.created_at_unix_ms)) (post ∷ posts))
    ∷ zremrangebyrank (timeline_key user_id) (pos 0) ((pos 0 -ℤ max_len) -ℤ pos 1)
    ∷ []

abbrev celebrity_commands : ℤ → List ℤ → List Command
celebrity_commands user_id [] = []
celebrity_commands user_id (id ∷ ids) =
    sadd (celebrity_following_key user_id) (map format_int (id ∷ ids)) ∷ []

-- The timeline and the set of followed celebrities of a user are replaced, and the follower count is
-- set with its time to live.
abbrev pub user_commands : ℤ → ℤ → UserWarmState → List Command
user_commands ttl max_len state =
    (del (timeline_key state.user_id ∷ celebrity_following_key state.user_id ∷ []) ∷ [])
    ++ timeline_commands state.user_id max_len state.timeline_posts
    ++ celebrity_commands state.user_id state.celebrity_ids
    ++ (set (follower_count_key state.user_id) (format_int state.follower_count) ttl ∷ [])

add_posts-timeline :
    (user_id max_len : ℤ) (posts : List Post)
    → add_posts (timeline_key user_id) max_len posts ≡ timeline_commands user_id max_len posts
unfolding add_posts trim
add_posts-timeline user_id max_len [] = refl
add_posts-timeline user_id max_len (post ∷ posts) = refl

add_celebrities-commands :
    (user_id : ℤ) (ids : List ℤ)
    → add_celebrities (celebrity_following_key user_id) ids ≡ celebrity_commands user_id ids
unfolding add_celebrities
add_celebrities-commands user_id [] = refl
add_celebrities-commands user_id (id ∷ ids) = refl

last_joined :
    (a b : List Command) (x : Command) (rest : List Command)
    → a ++ b ++ (x ∷ rest) ≡ (a ++ b ++ (x ∷ [])) ++ rest
last_joined a b x rest = sym (append_assoc (a ++ b) (x ∷ []) rest)

module _ {W : Type 0} (r : Redis W) where
  warm_commands-concat :
      (max_len : ℤ) (states : List UserWarmState)
      → warm_commands r max_len states ≡ concat (map (user_commands r.cache_ttl max_len) states)
  unfolding warm_commands concat
  warm_commands-concat max_len [] = refl
  warm_commands-concat max_len (state ∷ states) =
      rw (add_posts-timeline, add_celebrities-commands, warm_commands-concat max_len states)
        (ap
          (λ cs. del (timeline_key state.user_id ∷ celebrity_following_key state.user_id ∷ []) ∷ cs)
          (last_joined (timeline_commands state.user_id max_len state.timeline_posts)
            (celebrity_commands state.user_id state.celebrity_ids) _ _))

  -- WarmUsers replaces the timeline and the celebrities of every user and sets the follower count, in
  -- the order of the list and in pipelines of at most 100 users, or of the batch size if it is positive;
  -- it stops at the first pipeline that fails, and always ends.
  pub warm_users_lem :
      (states : List UserWarmState) (max_len batch_size : ℤ)
      → (batches : List (List UserWarmState)) × IsCut
          (if nonpos batch_size then 100 else pos_part batch_size)
          states
          batches
        × ((w : W)
            → warm_users r states max_len batch_size w
              ≡ each
                  (λ batch.
                    r.client.pipeline (concat (map (user_commands r.cache_ttl max_len) batch)))
                  batches
                  w)
  unfolding warm_batch
  warm_users_lem states max_len batch_size =
      let (batches, cut, same) = warm_users-IsCut r states max_len batch_size in
      (
        batches,
        cut,
        λ w.
            same w
            ∙ each_same _ _
                (λ users w₁.
                  ap (λ cs. r.client.pipeline cs w₁) (warm_commands-concat max_len users))
                batches w,
      )
