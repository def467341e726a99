-- ===== src/Examples/Deleting.antt =====
-- A Redis whose data is the set of tombstones, and the deletion of a post that is in a timeline.
use cascade_feed_ranking_eng.Common.{
  ℤ, pos, nonpos, eq_ℤ, floor_div, append_unseen, Bool, false, ◌||◌, List, [], ◌∷◌, ◌++◌, map,
  lookup, insert, has, Map, Bytes, codes, eq_bytes, eq_bytes_refl, other, ok, raise, pure, ◌≡◌,
  refl, sym, ◌∙◌, some,
}
use cascade_feed_ranking_eng.Common.Decimal.{format_int, parse_int}
use cascade_feed_ranking_eng.Json.{
  text_field, number_field, field, same_name, lower, set_text, set_number,
}
use cascade_feed_ranking_eng.Redis.{Client, Command, sadd, nil}
use cascade_feed_ranking_eng.Examples.Hydrating.{read_id, cached_post}
use cascade_feed_ranking_eng.Examples.Posting.{
  kafka, json, kafka-IsReadable, event_record, deletion_text,
}
use cascade_feed_ranking_eng.Feed.{Post, CandidateSet}
use cascade_feed_ranking_eng.Feed.Candidate.{
  load, parse_ids, parse_id, unique, exclude, flagged, read_deleted,
}
use cascade_feed_ranking_eng.Feed.Hydrator.{
  RedisPost, from_cache, unflagged, check_cached, read_values, remove_id, take_posts,
  without_tombstones, backfill, backfill_commands, fill_missing, hydrate_live, hydrate,
}
use cascade_feed_ranking_eng.Feed.Hydrator as Hydrator
use cascade_feed_ranking_eng.Feed.Page.Start.{ids}
use cascade_feed_ranking_eng.Feed.Select.{merge_ids, select_posts}
use cascade_feed_ranking_eng.Fanout.Processor.{Processor, process, process_post}
use cascade_feed_ranking_eng.Fanout.Events.{
  event_json, decode_post_deleted, parse_post, parse_post_deleted, has_nonpos,
}
use cascade_feed_ranking_eng.Fanout.Timeline.{add_tombstone}
use cascade_feed_ranking_eng.Posts.Events.{new_record, deleted_object, deleted_event}
use cascade_feed_ranking_eng.Deletion.{IsTombstoneSet, deleted_not_selected}

-- The members of the set.
abbrev World : Type 0
World = List Bytes

abbrev is_member : Bytes → World → Bool
is_member x [] = false
is_member x (y ∷ ys) = eq_bytes y x || is_member x ys

abbrev dead : World → ℤ → Bool
dead w id = is_member (format_int id) w

abbrev add : List Command → World → World
add (sadd key members ∷ commands) w = members ++ add commands w
add (_ ∷ commands) w = add commands w
add [] w = w

abbrev client : Client World
client = record {
  pipeline = λ commands w. (ok tt, w);
  tx_pipeline = λ commands w. (ok tt, add commands w);
  run = λ command. raise other;
  read_feed = λ timeline celebrities first last followed. pure (codes "1" ∷ codes "2" ∷ [], [], []);
  smismember = λ key members w. (ok (map (λ x. is_member x w) members), w);
  mget = λ keys. pure (nil ∷ []);
  get_int64 = λ key. raise other;
  scan = λ cursor pattern. raise other;
}

flags :
    (w : World) (ids : List ℤ) → map (λ x. is_member x w) (map format_int ids) ≡ map (dead w) ids
flags w [] = refl
flags w (id ∷ ids) = rw (flags w ids) refl

client-IsTombstoneSet : IsTombstoneSet client dead
client-IsTombstoneSet = record {
  added = λ id ttl w h. rw (eq_bytes_refl (format_int id)) refl;
  flags = λ ids answer w h.
      let same : map (λ x. is_member x w) (map format_int ids) ≡ answer = cc in
      sym same ∙ flags w ids;
  unread = λ timeline celebrities followed first last w. refl;
}

abbrev processor : Processor World
processor = record {
  repository = record {
    follower_count = λ user_id. raise other;
    follower_ids = λ user_id. raise other;
    recent_posts = λ user_id limit. raise other;
  };
  timeline = record { client = client; cache_ttl = pos 60; tombstone_ttl = pos 3600 };
  settings = record {
    post_topic = codes "post-events";
    follow_topic = codes "follow-events";
    celebrity_follower_threshold = pos 1000;
    max_timeline_len = pos 1000;
    backfill_count = pos 20;
    fanout_batch_size = 2;
  };
  json = json;
}

-- The Post Service answers with post 2, which is not in the cache.
abbrev service : RedisPost World
service = record {
  redis = client;
  get_posts = λ asked. pure (some (cached_post (pos 2)) ∷ []);
  ttl = pos 60;
  json = record { unmarshal = read_id; marshal = λ p. some [] };
}

-- Post 1 is deleted; the timeline of user 6 still holds it.
abbrev after : World
after = format_int (pos 1) ∷ []

abbrev candidates : CandidateSet
candidates = record { normal_ids = pos 2 ∷ []; celebrity_ids = []; followed_celebrities = [] }

abbrev posts : Map Post
posts = (pos 2, from_cache (cached_post (pos 2))) ∷ []

deleted_not_selected_example : has (pos 1) (ids (select_posts candidates posts (pos 10))) ≡ false
unfolding new_record deleted_object deleted_event event_json decode_post_deleted text_field
    number_field field same_name lower set_text set_number floor_div has_nonpos nonpos process
    process_post add_tombstone parse_post parse_post_deleted eq_bytes format_int load parse_ids
    parse_id parse_int unique exclude flagged read_deleted hydrate hydrate_live without_tombstones
    unflagged read_values check_cached fill_missing take_posts remove_id backfill backfill_commands
    lookup insert has eq_ℤ append_unseen merge_ids Hydrator.unique
deleted_not_selected_example =
    deleted_not_selected processor dead client-IsTombstoneSet kafka kafka-IsReadable (pos 1) (pos 8)
      (pos 7000000) (event_record deletion_text) [] refl refl refl (pos 6) (pos 10) candidates after
      (λ gone. gone) refl service posts 0 1 after refl
