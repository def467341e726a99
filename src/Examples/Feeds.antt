-- ===== src/Examples/Feeds.antt =====
-- A Feed Service with three posts, whose world is the number of requests that it has answered.
use cascade_feed_ranking_eng.Common.{
  wrap64, raise, deadline_exceeded, ℕ, suc, ◌≤◌, ℤ, pos, nonpos, eq_ℤ, lt_ℤ, ◌+ℤ◌, ◌*ℤ◌, arith,
  Bool, some, List, [], ◌∷◌, map, lookup, has, length, eq_bytes, Bytes, codes, other, ap, ok, err,
  raise, ◌≡◌, refl, ◌↔◌, floor_div,
}
use cascade_feed_ranking_eng.Common.Sort.{sort_slice, insert_sorted}
use cascade_feed_ranking_eng.Common.Decimal.{format_int}
use cascade_feed_ranking_eng.Redis.{Client}
use cascade_feed_ranking_eng.Examples.Codec.{whole, plain, plain-IsCodec}
use cascade_feed_ranking_eng.Examples.Pages.{posts, hydrated, candidates, weights}
use cascade_feed_ranking_eng.Feed.{from_milli}
use cascade_feed_ranking_eng.Feed.Cursor.{valid}
use cascade_feed_ranking_eng.Feed.Select.{
  select_posts, newer, selected, select_normal, seen_normal, select_celebrity, truncate,
}
use cascade_feed_ranking_eng.Feed.Ranking.{
  rank, score_posts, score_post, signal_of, age_of, time_sub, ranks_before,
}
use cascade_feed_ranking_eng.Feed.Page.{page_start, page_end, page_items, page_last}
use cascade_feed_ranking_eng.Feed.Page.Start.{ids}
use cascade_feed_ranking_eng.Feed.Server.{
  unavailable, GetFeedRequest, GetFeedResponse, FeedItem, Server, to_item, parse_token, next_token,
  respond, observe_feed, ranked_posts, serve_feed, get_feed, page_size_of,
}
use cascade_feed_ranking_eng.Feed.Server.Failing.{IsDown, get_feed-unavailable_iff}
use cascade_feed_ranking_eng.Feed.Server.Errors.{IsBadRequest, get_feed-bounded}
use cascade_feed_ranking_eng.Feed.Server.Walk.{IsStationary, collect, collect_all}
use cascade_feed_ranking_eng.Feed.Candidate.{load}
use cascade_feed_ranking_eng.Feed.Candidate.Tombstones.{alive, IsTombstones, load_lem}

abbrev server : Server ℕ ℤ
server = record {
  load_candidates = λ user_id limit w. (ok candidates, w);
  hydrate = λ ids w. (ok (hydrated, 4, 0), w);
  load_signals = λ user_id posts w. (ok [], w);
  rank = λ posts signals w. rank whole weights (pos 5000000000) posts signals;
  observe = some (λ hits misses w. suc w);
  candidate_pool = pos 100;
  default_page_size = pos 20;
  max_page_size = pos 50;
}

server-IsStationary : IsStationary whole plain server (pos 6) posts
unfolding select_posts selected select_normal seen_normal select_celebrity truncate newer sort_slice
    insert_sorted lookup has lt_ℤ eq_ℤ from_milli rank score_posts score_post signal_of age_of
    time_sub wrap64 ranks_before nonpos valid floor_div ◌+ℤ◌ ◌*ℤ◌
server-IsStationary = record {
  candidates = candidates;
  hydrated = hydrated;
  signals = [];
  hits = λ w. 4;
  misses = λ w. 0;
  loads = λ w. refl;
  hydrates = λ w. refl;
  signs = λ w. refl;
  ranks = λ w. refl;
  encodable = λ w. (refl, (refl, (refl, tt)));
}

collect_all_example :
    (items : List (FeedItem ℤ)) × (collect whole plain server (pos 6) (pos 2) 4 [] 0 ≡ some items)
    × (map (λ i. i.post_id) items ≡ pos 3 ∷ pos 2 ∷ pos 1 ∷ [])
unfolding nonpos lt_ℤ has eq_ℤ
collect_all_example =
    collect_all whole plain server (pos 6) (pos 2) posts 0 plain-IsCodec (refl, (refl, (refl, tt)))
      server-IsStationary refl (refl, refl)

-- A page of 51 posts is more than the maximum.
abbrev too_large : GetFeedRequest
too_large = record { user_id = pos 6; page_size = pos 51; page_token = [] }

-- The default page size of 20 holds all three posts.
abbrev first_page : GetFeedRequest
first_page = record { user_id = pos 6; page_size = pos 0; page_token = [] }

-- The posts of the candidates cannot be hydrated.
abbrev without_posts : Server ℕ ℤ
without_posts = record server { hydrate = λ ids. raise deadline_exceeded }

get_feed-unavailable_iff_example :
    ((get_feed whole plain without_posts (some first_page) 0).0 ≡ err unavailable) ↔ (
      (IsBadRequest whole plain without_posts first_page → ⊥)
      × IsDown whole plain without_posts (pos 6) 0)
get_feed-unavailable_iff_example = get_feed-unavailable_iff whole plain without_posts first_page 0

abbrev answer : GetFeedResponse ℤ
answer = record {
  items = map (to_item whole plain) (rank whole weights (pos 5000000000) posts []);
  next_page_token = [];
}

get_feed-bounded_example : (length answer.items ≤ 20) × (length answer.items ≤ 50)
unfolding page_size_of eq_ℤ nonpos get_feed serve_feed respond parse_token next_token page_start
    page_end page_items page_last observe_feed ranked_posts select_posts selected select_normal
    seen_normal select_celebrity truncate newer sort_slice insert_sorted lookup has lt_ℤ from_milli
    rank score_posts score_post signal_of age_of time_sub wrap64 ranks_before ◌+ℤ◌ ◌*ℤ◌
get_feed-bounded_example = get_feed-bounded whole plain server first_page 0 answer refl

-- Redis with two timelines, where post 2 is deleted.
abbrev is_two : Bytes → Bool
is_two member = eq_bytes member (codes "2")

abbrev client : Client ℕ
client = record {
  pipeline = λ commands. raise other;
  tx_pipeline = λ commands. raise other;
  run = λ command. raise other;
  read_feed = λ timeline celebrities first last followed w.
      (ok (codes "1" ∷ codes "2" ∷ [], codes "2" ∷ codes "3" ∷ [], codes "9" ∷ []), w);
  smismember = λ key members w. (ok (map is_two members), w);
  mget = λ keys. raise other;
  get_int64 = λ key. raise other;
  scan = λ cursor pattern. raise other;
}

is_dead : ℤ → Bool
is_dead id = is_two (format_int id)

are_dead : (ids : List ℤ) → map is_two (map format_int ids) ≡ map is_dead ids
unfolding is_dead
are_dead [] = refl
are_dead (id ∷ ids) = ap (λ flags. is_two (format_int id) ∷ flags) (are_dead ids)

client-IsTombstones : IsTombstones client is_dead
client-IsTombstones = record { flags = λ ids w. ap ok (are_dead ids) }

load_lem_example :
    (load client (pos 6) (pos 100) 0).0
    ≡ ok (record {
      normal_ids = alive is_dead (pos 1 ∷ pos 2 ∷ []);
      celebrity_ids = alive is_dead (pos 2 ∷ pos 3 ∷ []);
      followed_celebrities = pos 9 ∷ [];
    })
unfolding nonpos format_int
load_lem_example =
    load_lem client is_dead client-IsTombstones (pos 6) (pos 100) (pos 1 ∷ pos 2 ∷ [])
      (pos 2 ∷ pos 3 ∷ []) (pos 9 ∷ []) 0 0 refl refl
      ((omega arith, refl), ((omega arith, refl), tt))
      ((omega arith, refl), ((omega arith, refl), tt)) ((omega arith, refl), tt)
