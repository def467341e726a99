-- ===== src/Examples/Hydrating.antt =====
-- Hydration of two posts, of which one is in the cache.
use cascade_feed_ranking_eng.Common.{
  ℕ, suc, ℤ, pos, nonpos, eq_ℤ, true, false, Option, none, some, [], ◌∷◌, lookup, insert,
  append_unseen, has, Bytes, codes, other, ok, raise, pure, ◌≡◌, refl,
}
use cascade_feed_ranking_eng.Redis.{nil, text}
use cascade_feed_ranking_eng.Examples.Codec.{sign, size, number}
use cascade_feed_ranking_eng.Feed.Hydrator.{
  CachedPost, RedisPost, from_cache, unflagged, check_cached, read_values, remove_id, take_posts,
  without_tombstones, backfill, backfill_commands, fill_missing, hydrate_live, hydrate, unique,
}
use cascade_feed_ranking_eng.Feed.Hydrator.Sound.{IsHydrated, hydrate_sound}

abbrev pub cached_post : ℤ → CachedPost
cached_post id = record {
  id = id;
  author_id = pos 8;
  content = codes "hello";
  media_url = [];
  created_at_unix_ms = pos 1000;
}

-- The ID stands for the post.
abbrev pub read_id : Bytes → Option CachedPost
read_id (a ∷ b ∷ _) = some (cached_post (number a b))
read_id _ = none

abbrev service : RedisPost ℕ
service = record {
  redis = record {
    pipeline = λ commands w. (ok tt, suc w);
    tx_pipeline = λ commands. raise other;
    run = λ command. raise other;
    read_feed = λ timeline celebrities first last followed. raise other;
    smismember = λ key members. pure (false ∷ true ∷ false ∷ []);
    mget = λ keys. pure (text (sign (pos 1) ∷ size (pos 1) ∷ []) ∷ nil ∷ []);
    get_int64 = λ key. raise other;
    scan = λ cursor pattern. raise other;
  };
  get_posts = λ ids. pure (none ∷ some (cached_post (pos 3)) ∷ []);
  ttl = pos 60;
  json = record { unmarshal = read_id; marshal = λ p. some (sign p.id ∷ size p.id ∷ []) };
}

-- Post 2 is deleted, and post 3 is not in the cache.
hydrate_sound_example :
    IsHydrated (pos 3) (from_cache (cached_post (pos 3)))
    × (has (pos 3) (pos 1 ∷ pos 2 ∷ pos 3 ∷ []) ≡ true)
unfolding hydrate hydrate_live unique without_tombstones unflagged read_values check_cached
    fill_missing take_posts remove_id backfill backfill_commands lookup insert has eq_ℤ nonpos
    append_unseen
hydrate_sound_example =
    hydrate_sound service (pos 1 ∷ pos 2 ∷ pos 3 ∷ []) 0
      ((pos 1, from_cache (cached_post (pos 1))) ∷ (pos 3, from_cache (cached_post (pos 3))) ∷ []) 1
      1 (pos 3) (from_cache (cached_post (pos 3))) refl refl
