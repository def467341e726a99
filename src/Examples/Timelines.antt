-- ===== src/Examples/Timelines.antt =====
-- A Redis that holds sorted sets below their limit, and a Fanout Worker on it.
use mathlib.Core.Path.{fun_ext}
use cascade_feed_ranking_eng.Common.{
  map, ℤ, pos, nonpos, lt_ℤ, Option, none, some, List, [], ◌∷◌, Bytes, codes, eq_bytes, eq_bytes→eq,
  eq_bytes_refl, other, ok, raise, pure, each, if◌then◌else◌, Bool-cases, ◌≡◌, ◌≢◌, refl, sym, ap,
  ◌∙◌, arith, inl, inr,
}
use cascade_feed_ranking_eng.Redis.{
  Client, Command, zadd, zremrangebyrank, sadd, srem, expire, del, set,
}
use cascade_feed_ranking_eng.Fanout.{Post, FollowCreated, follow_created}
use cascade_feed_ranking_eng.Fanout.Events.{EventJson}
use cascade_feed_ranking_eng.Fanout.Timeline.{
  Redis, UserWarmState, trim, fanout_commands, fanout_batch, fanout_post, warm_users,
  invalidate_follower_count, cached_follower_count, each_batch, cache_follower_count, backfill,
}
use cascade_feed_ranking_eng.Fanout.Timeline.Batches.{IsCut, concat}
use cascade_feed_ranking_eng.Fanout.Timeline.Written.{
  follower_commands, user_commands, fanout_post_lem, warm_users_lem,
}
use cascade_feed_ranking_eng.Fanout.Timeline.Replay.{
  IsOn, IsSortedSets, apply_all, fanout_post_replayed,
}
use cascade_feed_ranking_eng.Fanout.Processor.{
  Processor, process, process_follow, deliver_follow, follower_count, use_count,
  should_fanout_on_write,
}
use cascade_feed_ranking_eng.Fanout.Processor.Accepted.{Accepted, process-Accepted}
use cascade_feed_ranking_eng.Fanout.Processor.Fresh.{IsDeleting, process_follow-counted}

abbrev put : Bytes × ℤ → List (Bytes × ℤ) → List (Bytes × ℤ)
put e [] = e ∷ []
put e (x ∷ xs) = if eq_bytes x.0 e.0 then e ∷ xs else x ∷ put e xs

abbrev put_all : List (Bytes × ℤ) → List (Bytes × ℤ) → List (Bytes × ℤ)
put_all [] xs = xs
put_all (e ∷ es) xs = put_all es (put e xs)

-- The members of each sorted set with their scores.
abbrev pub Sets : Type 0
Sets = Bytes → List (Bytes × ℤ)

abbrev pub apply : Command → Sets → Sets
apply (zadd key entries) s = λ k. if eq_bytes key k then put_all entries (s k) else s k
apply _ s = s

put_again : (e : Bytes × ℤ) (xs : List (Bytes × ℤ)) → put e (put e xs) ≡ put e xs
put_again e [] = rw (eq_bytes_refl e.0) refl
put_again e (x ∷ xs) = elim (Bool-cases (eq_bytes x.0 e.0)) [
  | inl here ↦ rw (here, eq_bytes_refl e.0) refl
  | inr below ↦ rw (below, below) (ap (λ ys. x ∷ ys) (put_again e xs))
]

add_again :
    (k : Bytes) (e : Bytes × ℤ) (s : Sets)
    → apply (zadd k (e ∷ [])) (apply (zadd k (e ∷ [])) s) ≡ apply (zadd k (e ∷ [])) s
add_again k e s = fun_ext λ j. elim (Bool-cases (eq_bytes k j)) [
  | inl here ↦ rw here (put_again e (s j))
  | inr apart ↦ rw apart refl
]

adds_apart :
    (j k : Bytes) (es fs : List (Bytes × ℤ)) (s : Sets)
    → j ≢ k
    → apply (zadd j es) (apply (zadd k fs) s) ≡ apply (zadd k fs) (apply (zadd j es) s)
adds_apart j k es fs s differ = fun_ext λ i. elim (Bool-cases (eq_bytes j i)) [
  | inl here ↦ elim (Bool-cases (eq_bytes k i)) [
    | inl both ↦ absurd (differ (eq_bytes→eq j i here ∙ sym (eq_bytes→eq k i both)))
    | inr apart ↦ rw (here, apart) refl
  ]
  | inr apart ↦ rw apart refl
]

apart :
    (j k : Bytes) (c d : Command) (s : Sets)
    → IsOn j c
    → IsOn k d
    → j ≢ k
    → apply c (apply d s) ≡ apply d (apply c s)
apart j k (zadd l es) (zadd m fs) s on_j on_k differ =
    adds_apart l m es fs s (λ e. differ (sym on_j ∙ e ∙ on_k))
apart j k (zadd l es) (zremrangebyrank m a b) s on_j on_k differ = refl
apart j k (zadd l es) (sadd m ms) s on_j on_k differ = refl
apart j k (zadd l es) (srem m ms) s on_j on_k differ = refl
apart j k (zadd l es) (expire m t) s on_j on_k differ = refl
apart j k (zadd l es) (del ms) s on_j on_k differ = refl
apart j k (zadd l es) (set m v t) s on_j on_k differ = refl
apart j k (zremrangebyrank l a b) d s on_j on_k differ = refl
apart j k (sadd m ms) d s on_j on_k differ = refl
apart j k (srem m ms) d s on_j on_k differ = refl
apart j k (expire m t) d s on_j on_k differ = refl
apart j k (del ms) d s on_j on_k differ = refl
apart j k (set m v t) d s on_j on_k differ = refl

-- The sorted sets, and the follower count that is cached for the one author.
abbrev pub World : Type 0
World = Sets × Option ℤ

abbrev run_command : Command → World → World
run_command (del keys) (s, count) = (s, none)
run_command (set key value ttl) (s, count) = (s, some (pos 2))
run_command c (s, count) = (apply c s, count)

abbrev client : Client World
client = record {
  pipeline = λ cs w. (ok tt, (apply_all apply cs w.0, w.1));
  tx_pipeline = λ cs w. (ok tt, (apply_all apply cs w.0, w.1));
  run = λ c w. (ok tt, run_command c w);
  read_feed = λ timeline celebrities first last followed. raise other;
  smismember = λ key members. raise other;
  mget = λ keys. raise other;
  get_int64 = λ key w. (ok w.1, w);
  scan = λ cursor pattern. raise other;
}

abbrev redis : Redis World
redis = record { client = client; cache_ttl = pos 60; tombstone_ttl = pos 3600 }

client-IsSortedSets : IsSortedSets client (λ (w : World). w.0) apply
unfolding trim
client-IsSortedSets = record {
  pipeline_ok = λ cs w h. refl;
  pipeline_err = λ cs w e h. cc;
  apart = apart;
  add_again = add_again;
  add_trimmed = λ k e n s h. add_again k e s;
}

abbrev posted : Post
posted = record { id = pos 11; created_at_unix_ms = pos 1000 }

abbrev followers : List ℤ
followers = pos 1 ∷ pos 2 ∷ pos 3 ∷ []

abbrev empty : World
empty = (λ k. [], none)

-- Three followers in batches of two, and the same event again.
fanout_post_replayed_example :
    (fanout_post redis followers posted
      (pos 1000)
      2
      (fanout_post redis followers posted (pos 1000) 2 empty).1).1.0
    ≡ apply_all apply (fanout_commands posted (pos 1000) followers) empty.0
unfolding lt_ℤ fanout_post each_batch fanout_batch
fanout_post_replayed_example =
    fanout_post_replayed redis (λ (w : World). w.0) apply client-IsSortedSets posted (pos 1000) refl
      followers 2 empty (fanout_post redis followers posted (pos 1000) 2 empty).1
      (omega arith, (omega arith, (omega arith, tt))) (omega arith) refl refl

fanout_post_lem_example :
    (batches : List (List ℤ)) × IsCut 2 followers batches
    × ((w : World)
        → fanout_post redis followers posted (pos 1000) 2 w
          ≡ each
              (λ batch. client.pipeline (concat (map (follower_commands posted (pos 1000)) batch)))
              batches
              w)
fanout_post_lem_example = fanout_post_lem redis followers posted (pos 1000) 2 (omega arith)

abbrev warmed : List UserWarmState
warmed =
    record {
      user_id = pos 1;
      follower_count = pos 2;
      timeline_posts = posted ∷ [];
      celebrity_ids = [];
    }
    ∷ record {
      user_id = pos 2;
      follower_count = pos 0;
      timeline_posts = [];
      celebrity_ids = pos 9 ∷ [];
    }
    ∷ []

warm_users_lem_example :
    (batches : List (List UserWarmState)) × IsCut 100 warmed batches
    × ((w : World)
        → warm_users redis warmed (pos 1000) (pos 0) w
          ≡ each
              (λ batch. client.pipeline (concat (map (user_commands (pos 60) (pos 1000)) batch)))
              batches
              w)
unfolding nonpos
warm_users_lem_example = warm_users_lem redis warmed (pos 1000) (pos 0)

abbrev follow : FollowCreated
follow = record {
  event_type = codes "FollowCreated";
  follower_id = pos 1;
  followee_id = pos 8;
  created_at_unix_ms = pos 2000;
}

-- Every payload is the follow event.
abbrev json : EventJson
json = record {
  envelope = λ payload. some (codes "FollowCreated");
  post_created = λ payload. none;
  post_deleted = λ payload. none;
  follow_created = λ payload. some follow;
  follow_deleted = λ payload. none;
}

abbrev processor : Processor World
processor = record {
  repository = record {
    follower_count = λ user_id. pure (pos 2);
    follower_ids = λ user_id. pure followers;
    recent_posts = λ user_id limit. pure (posted ∷ []);
  };
  timeline = redis;
  settings = record {
    post_topic = codes "post-events";
    follow_topic = codes "follow-events";
    celebrity_follower_threshold = pos 1000;
    max_timeline_len = pos 1000;
    backfill_count = pos 20;
    fanout_batch_size = 2;
  };
  json = json;
}

process-Accepted_example :
    Accepted processor
      (codes "follow-events")
      (codes "{}")
      empty
      (process processor (codes "follow-events") (codes "{}") empty)
process-Accepted_example = process-Accepted processor (codes "follow-events") (codes "{}") empty

client-IsDeleting : IsDeleting client
client-IsDeleting = record { deleted = λ key w h. refl }

-- A cached count of a celebrity is not used.
abbrev stale : World
stale = (λ k. [], some (pos 5000))

process_follow-counted_example :
    (count : ℤ) × ((processor.repository.follower_count (pos 8) empty).0 ≡ ok count)
    × (process_follow processor (follow_created follow) stale
        ≡ deliver_follow processor follow count (follower_count processor (pos 8) empty).1)
unfolding process_follow deliver_follow follower_count use_count should_fanout_on_write
    invalidate_follower_count cached_follower_count cache_follower_count backfill lt_ℤ
process_follow-counted_example =
    process_follow-counted processor client-IsDeleting follow stale refl
