-- ===== src/Examples/Caching.antt =====
-- A Redis of strings, and a post that is cached and read back.
use cascade_feed_ranking_eng.Common.{
  ℤ, pos, has, List, [], ◌∷◌, map, Map, lookup, floor_div, Bytes, other, ok, raise, some, ◌≡◌, refl,
  arith,
}
use cascade_feed_ranking_eng.Redis.{Client, Command, set, nil}
use cascade_feed_ranking_eng.Examples.Posting.{hello}
use cascade_feed_ranking_eng.Posts.{Post}
use cascade_feed_ranking_eng.Posts.Cache.{
  CacheValue, RedisCache, set_many, get_many, set_commands, encode_post, to_value,
}
use cascade_feed_ranking_eng.Posts.Cache.Stored.{Strings, put, put_all, IsStrings}
use cascade_feed_ranking_eng.Posts.Cache.RoundTrip.{get_many-set_many}
use cascade_feed_ranking_eng.Feed.{from_milli}

abbrev run_sets : List Command → Strings → Strings
run_sets [] s = s
run_sets (set key raw ttl ∷ commands) s = run_sets commands (put key raw s)
run_sets (_ ∷ commands) s = run_sets commands s

abbrev client : Client Strings
client = record {
  pipeline = λ commands w. (ok tt, run_sets commands w);
  tx_pipeline = λ commands. raise other;
  run = λ command. raise other;
  read_feed = λ timeline celebrities first last followed. raise other;
  smismember = λ key members. raise other;
  mget = λ keys w. (ok (map w keys), w);
  get_int64 = λ key. raise other;
  scan = λ cursor pattern. raise other;
}

sets_stored :
    (entries : List (Bytes × Bytes)) (ttl : ℤ) (w : Strings)
    → run_sets (map (λ e. set e.0 e.1 ttl) entries) w ≡ put_all entries w
sets_stored [] ttl w = refl
sets_stored ((key, raw) ∷ entries) ttl w = sets_stored entries ttl (put key raw w)

client-IsStrings : IsStrings client (λ w. w)
client-IsStrings = record {
  stored = λ entries ttl w done. sets_stored entries ttl w;
  answers = λ keys w. refl;
}

-- The one value is written as an empty text.
abbrev value : CacheValue
value = record {
  id = hello.id;
  author_id = hello.author_id;
  content = hello.content;
  media_url = hello.media_url;
  created_at_unix_ms = pos 5;
}

abbrev cache : RedisCache Strings
cache = record {
  client = client;
  ttl = pos 60;
  tombstone_ttl = pos 3600;
  json = record { marshal = λ v. some []; unmarshal = λ raw. some value };
}

abbrev empty : Strings
empty = λ key. nil

get_many-set_many_example :
    (result : Map Post) × ((get_many cache (pos 1 ∷ []) (set_many cache (hello ∷ []) empty).1).0
      ≡ ok result)
    × ((lookup (pos 1) result ≡ some hello) × Unit {0})
unfolding to_value floor_div has set_many set_commands encode_post from_milli
get_many-set_many_example =
    get_many-set_many cache (λ w. w) client-IsStrings (hello ∷ []) empty
      (set_many cache (hello ∷ []) empty).1 (([], refl, refl), tt) (omega arith, tt) (refl, tt) refl
      (refl, tt)
