-- ===== src/Fanout/Warm.antt =====
-- services/fanout-worker/internal/warm/warmer.go: the job that rebuilds the timelines from the
-- database. PostgreSQL is the parameter `Store`, JSON and the client of the post cache are fields.
pub mod Newest
pub mod Sources
use cascade_feed_ranking_eng.Common.{
  ℕ, ℤ, pos, pos_part, lt_ℤ, eq_ℤ, nonpos, Bool, true, false, not, ◌||◌, Option, none, some, List,
  [], ◌∷◌, ◌++◌, map, Map, lookup, insert, has, append_unseen, length, take, is_empty, Bytes, Error,
  other, Result, ok, err, Exec, pure, lift, ◌>>=◌, ◌>>◌, if◌then◌else◌,
}
use cascade_feed_ranking_eng.Common.Sort.{sort_slice}
use cascade_feed_ranking_eng.Redis.{Client, Command, set, post_key}
use cascade_feed_ranking_eng.Fanout.{Post}
use cascade_feed_ranking_eng.Fanout.Processor.{should_fanout_on_write}
use cascade_feed_ranking_eng.Fanout.Timeline.{UserWarmState}

-- repository.PostContent, repository.User and repository.FollowEdge.
pub record PostContent : Type 0 where
  pub id : ℤ
  pub author_id : ℤ
  pub content : Bytes
  pub media_url : Bytes
  pub created_at_unix_ms : ℤ

pub record User : Type 0 where
  pub id : ℤ
  pub follower_count : ℤ
  pub celebrity : Bool

pub record FollowEdge : Type 0 where
  pub follower_id : ℤ
  pub followee_id : ℤ

pub record WarmSettings : Type 0 where
  pub celebrity_follower_threshold : ℤ
  pub max_timeline_len : ℤ
  pub backfill_count : ℤ
  pub batch_size : ℤ
  pub post_cache_ttl : ℤ
  pub reset : Bool
  pub warm_posts : Bool

pub record WarmResult : Type 0 where
  pub users : ℕ
  pub timelines : ℕ
  pub celebrity_posts : ℕ
  pub post_cache : ℕ

-- Store, TimelineCache, the client of the post cache (which may be missing) and `json.Marshal`.
pub record Warmer (W : Type 0) : Type 0 where
  pub list_users : Exec W Error (List User)
  pub list_follows : Exec W Error (List FollowEdge)
  pub recent_posts_per_author : ℤ → Exec W Error (List PostContent)
  pub delete_warmable_keys : Exec W Error (Unit {0})
  pub warm_users : List UserWarmState → ℤ → ℤ → Exec W Error (Unit {0})
  pub replace_celebrity_posts : List Post → ℤ → Exec W Error (Unit {0})
  pub posts : Option (Client W)
  pub marshal : PostContent → Option Bytes
  pub settings : WarmSettings

-- 6 hours.
abbrev pub six_hours : ℤ
six_hours = pos 21600000000000

-- The defaults of New.
unfoldable pub new_settings : WarmSettings → WarmSettings
new_settings s = record {
  celebrity_follower_threshold = s.celebrity_follower_threshold;
  batch_size = if nonpos s.batch_size then pos 100 else s.batch_size;
  max_timeline_len = if nonpos s.max_timeline_len then pos 1000 else s.max_timeline_len;
  backfill_count = if nonpos s.backfill_count then pos 20 else s.backfill_count;
  post_cache_ttl = if nonpos s.post_cache_ttl then six_hours else s.post_cache_ttl;
  reset = s.reset;
  warm_posts = s.warm_posts;
}

unfoldable pub max_int64 : ℤ → ℤ → ℤ
max_int64 a b = if lt_ℤ b a then a else b

unfoldable pub to_timeline_posts : List PostContent → List Post
to_timeline_posts [] = []
to_timeline_posts (p ∷ posts) =
    record { id = p.id; created_at_unix_ms = p.created_at_unix_ms } ∷ to_timeline_posts posts

-- Newest first, then by the larger ID.
unfoldable pub newer_content : PostContent → PostContent → Bool
newer_content a b =
    if not (eq_ℤ a.created_at_unix_ms b.created_at_unix_ms)
    then lt_ℤ b.created_at_unix_ms a.created_at_unix_ms
    else lt_ℤ b.id a.id

unfoldable pub newest_contents : List PostContent → ℤ → List PostContent
newest_contents posts limit =
    let sorted = sort_slice newer_content posts in
    if is_empty posts || nonpos limit
    then []
    else if lt_ℤ limit (pos (length sorted))
    then take (pos_part limit) sorted
    else sorted

unfoldable pub newest_posts : List PostContent → ℤ → List Post
newest_posts posts limit = to_timeline_posts (newest_contents posts limit)

-- `postsByAuthor[id]`
unfoldable pub posts_by_author : ℤ → List PostContent → List PostContent
posts_by_author id [] = []
posts_by_author id (p ∷ posts) =
    let rest = posts_by_author id posts in
    elim (eq_ℤ p.author_id id) [ true ↦ p ∷ rest | false ↦ rest ]

-- `contentByID`
unfoldable pub content_by_id : List PostContent → Map PostContent → Map PostContent
content_by_id [] contents = contents
content_by_id (p ∷ posts) contents = content_by_id posts (insert p.id p contents)

-- The keys of `celebrities`, in the order of the users.
unfoldable pub celebrities : ℤ → List User → List ℤ
celebrities threshold [] = []
celebrities threshold (user ∷ users) =
    let rest = celebrities threshold users in
    if user.celebrity || not (should_fanout_on_write user.follower_count threshold)
    then user.id ∷ rest
    else rest

-- `followeesByFollower[id]`
unfoldable pub followees : ℤ → List FollowEdge → List ℤ
followees id [] = []
followees id (edge ∷ edges) =
    let rest = followees id edges in
    elim (eq_ℤ edge.follower_id id) [ true ↦ edge.followee_id ∷ rest | false ↦ rest ]

unfoldable pub followed_celebrities : List ℤ → List ℤ → List ℤ
followed_celebrities stars [] = []
followed_celebrities stars (id ∷ ids) =
    let rest = followed_celebrities stars ids in
    elim (has id stars) [ true ↦ id ∷ rest | false ↦ rest ]

unfoldable pub normal_posts : List ℤ → List PostContent → List ℤ → List PostContent
normal_posts stars posts [] = []
normal_posts stars posts (id ∷ ids) =
    let rest = normal_posts stars posts ids in
    elim (has id stars) [ true ↦ rest | false ↦ posts_by_author id posts ++ rest ]

unfoldable pub warm_state : List ℤ → List PostContent → List FollowEdge → ℤ → User → UserWarmState
warm_state stars posts edges limit user = record {
  user_id = user.id;
  follower_count = user.follower_count;
  timeline_posts = newest_posts (normal_posts stars posts (followees user.id edges)) limit;
  celebrity_ids = followed_celebrities stars (followees user.id edges);
}

unfoldable pub warm_states :
    List ℤ → List PostContent → List FollowEdge → ℤ → List User → List UserWarmState
warm_states stars posts edges limit [] = []
warm_states stars posts edges limit (user ∷ users) =
    warm_state stars posts edges limit user ∷ warm_states stars posts edges limit users

-- The posts of the celebrities, each of whom is a key once.
unfoldable pub celebrity_contents : List PostContent → List ℤ → List PostContent
celebrity_contents posts [] = []
celebrity_contents posts (id ∷ ids) = posts_by_author id posts ++ celebrity_contents posts ids

unfoldable pub remember : Map PostContent → List Post → Map PostContent → Map PostContent
remember contents [] warmed = warmed
remember contents (p ∷ posts) warmed = elim (lookup p.id contents) [
  | none ↦ remember contents posts warmed
  | some content ↦ remember contents posts (insert p.id content warmed)
]

unfoldable pub remember_states :
    Map PostContent → List UserWarmState → Map PostContent → Map PostContent
remember_states contents [] warmed = warmed
remember_states contents (state ∷ states) warmed =
    remember_states contents states (remember contents state.timeline_posts warmed)

unfoldable pub cache_commands :
    (PostContent → Option Bytes) → ℤ → List PostContent → Result Error (List Command)
cache_commands marshal ttl [] = ok []
cache_commands marshal ttl (p ∷ posts) =
    let rest = cache_commands marshal ttl posts in
    elim (marshal p) [
      | none ↦ err other
      | some encoded ↦ elim rest [
        | err e ↦ err e
        | ok commands ↦ ok (set (post_key p.id) encoded ttl ∷ commands)
      ]
    ]

module _ {W : Type 0} (w : Warmer W) where
  unfoldable pub write_post_cache : Client W → List PostContent → Exec W Error (Unit {0})
  write_post_cache client [] = pure tt
  write_post_cache client (p ∷ posts) = do
    commands ← lift (cache_commands w.marshal w.settings.post_cache_ttl (p ∷ posts))
    client.pipeline commands

  -- From `if w.settings.WarmPosts` on: the number of cached posts.
  unfoldable pub warm_posts : Option (Client W) → List PostContent → Exec W Error ℕ
  warm_posts none contents = pure 0
  warm_posts (some client) contents =
      if not w.settings.warm_posts
      then pure 0
      else do write_post_cache client contents; pure (length contents)

  unfoldable pub run_warmer : Exec W Error WarmResult
  run_warmer = do
    users ← w.list_users
    follows ← w.list_follows
    posts ←
        w.recent_posts_per_author (max_int64 w.settings.backfill_count w.settings.max_timeline_len)
    let limit = w.settings.max_timeline_len
    let stars = append_unseen [] [] (celebrities w.settings.celebrity_follower_threshold users)
    let states = warm_states stars posts follows limit users
    let newest = newest_contents (celebrity_contents posts stars) limit
    let contents = content_by_id posts []
    let warmed = remember contents (to_timeline_posts newest) (remember_states contents states [])
    if w.settings.reset then w.delete_warmable_keys else pure tt
    w.warm_users states limit w.settings.batch_size
    w.replace_celebrity_posts (to_timeline_posts newest) limit
    cached ← warm_posts w.posts (map (λ e. e.1) warmed)
    pure (record {
      users = length users;
      timelines = length states;
      celebrity_posts = length newest;
      post_cache = cached;
    })
