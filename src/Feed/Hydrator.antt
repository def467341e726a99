-- ===== src/Feed/Hydrator.antt =====
-- services/feed-service/internal/hydrator/redis_post.go: post bodies from the post cache and, for
-- the misses, from one call of Post Service. JSON is the parameter `PostJson`.
pub mod Sound
pub mod Postgres
use cascade_feed_ranking_eng.Common.{
  ℕ, ℤ, nonpos, eq_ℤ, Bool, true, false, not, ◌||◌, Option, none, some, List, [], ◌∷◌, ◌++◌, map,
  Map, insert, has, append_unseen, length, Bytes, Error, other, Result, ok, err, Exec, pure, lift,
  ◌>>=◌, ◌>>◌,
}
use cascade_feed_ranking_eng.Common.Decimal.{format_int}
use cascade_feed_ranking_eng.Redis.{
  Client, Command, set, Value, nil, text, unexpected, post_key, tombstones_key,
}
use cascade_feed_ranking_eng.Feed.{Post, from_milli}

pub record CachedPost : Type 0 where
  pub id : ℤ
  pub author_id : ℤ
  pub content : Bytes
  pub media_url : Bytes
  pub created_at_unix_ms : ℤ

-- `json.Unmarshal` into a cachedPost and `json.Marshal` of one.
pub record PostJson : Type 0 where
  pub unmarshal : Bytes → Option CachedPost
  pub marshal : CachedPost → Option Bytes

unfoldable pub from_cache : CachedPost → Post
from_cache post = record {
  id = post.id;
  author_id = post.author_id;
  content = post.content;
  media_url = post.media_url;
  created_at = from_milli post.created_at_unix_ms;
}

unfoldable pub unique : List ℤ → List ℤ
unique ids = append_unseen [] [] ids

-- An ID is dropped if it has a flag and the flag is set.
unfoldable pub unflagged : List ℤ → List Bool → List ℤ
unflagged [] flags = []
unflagged (id ∷ ids) [] = id ∷ unflagged ids []
unflagged (id ∷ ids) (flag ∷ flags) =
    let rest = unflagged ids flags in elim flag [ true ↦ rest | false ↦ id ∷ rest ]

-- The cached post under `post:{id}`, or an error if it is malformed or another post.
unfoldable pub check_cached : PostJson → ℤ → Value → Result Error (Option CachedPost)
check_cached json id nil = ok none
check_cached json id unexpected = err other
check_cached json id (text raw) = elim (json.unmarshal raw) [
  | none ↦ err other
  | some cached ↦
      elim (not (eq_ℤ cached.id id)
        || nonpos cached.author_id
        || nonpos cached.created_at_unix_ms) [ true ↦ err other | false ↦ ok (some cached) ]
]

-- The loop over the values: `result`, and the IDs that are missing. MGET gives a value for each key.
unfoldable pub read_values :
    PostJson → List ℤ → List Value → Map Post → List ℤ → Result Error (Map Post × List ℤ)
read_values json [] values result missing = ok (result, missing)
read_values json (id ∷ ids) [] result missing = ok (result, missing)
read_values json (id ∷ ids) (value ∷ values) result missing = elim (check_cached json id value) [
  | err e ↦ err e
  | ok none ↦ read_values json ids values result (missing ++ id ∷ [])
  | ok (some cached) ↦ read_values json ids values (insert id (from_cache cached) result) missing
]

unfoldable pub remove_id : ℤ → List ℤ → List ℤ
remove_id id [] = []
remove_id id (x ∷ xs) =
    let rest = remove_id id xs in elim (eq_ℤ x id) [ true ↦ rest | false ↦ x ∷ rest ]

-- The loop over Post Service's answer, where a nil post is `none`: the posts found, and those to
-- write back. A post that was not asked for, or comes twice, or is not valid is an error.
unfoldable pub take_posts :
    List ℤ
    → List (Option CachedPost)
    → Map Post
    → List CachedPost
    → Result Error (Map Post × List CachedPost)
take_posts missing [] result backfill = ok (result, backfill)
take_posts missing (none ∷ posts) result backfill = take_posts missing posts result backfill
take_posts missing (some post ∷ posts) result backfill =
    elim (not (has post.id missing)
      || nonpos post.id
      || nonpos post.author_id
      || nonpos post.created_at_unix_ms) [
        | true ↦ err other
        | false ↦
            take_posts (remove_id post.id missing) posts (insert post.id (from_cache post) result)
              (backfill ++ post ∷ [])
      ]

-- The commands of the write-back, or an error if a post has no JSON text.
unfoldable pub backfill_commands : PostJson → ℤ → List CachedPost → Result Error (List Command)
backfill_commands json ttl [] = ok []
backfill_commands json ttl (post ∷ posts) =
    let rest = backfill_commands json ttl posts in
    elim (json.marshal post) [
      | none ↦ err other
      | some value ↦ elim rest [
        | err e ↦ err e
        | ok commands ↦ ok (set (post_key post.id) value ttl ∷ commands)
      ]
    ]

-- The Redis client, the GetPosts call of Post Service, and the lifetime of a cached post.
pub record RedisPost (W : Type 0) : Type 0 where
  pub redis : Client W
  pub get_posts : List ℤ → Exec W Error (List (Option CachedPost))
  pub ttl : ℤ
  pub json : PostJson

module _ {W : Type 0} (h : RedisPost W) where
  unfoldable pub without_tombstones : List ℤ → Exec W Error (List ℤ)
  without_tombstones [] = pure []
  without_tombstones (id ∷ ids) = do
    tombstoned ← h.redis.smismember tombstones_key (map format_int (id ∷ ids))
    pure (unflagged (id ∷ ids) tombstoned)

  unfoldable pub backfill : List CachedPost → Exec W Error (Unit {0})
  backfill [] = pure tt
  backfill (post ∷ posts) = do
    commands ← lift (backfill_commands h.json h.ttl (post ∷ posts))
    h.redis.pipeline commands

  -- From the misses on: no call if there are none.
  unfoldable pub fill_missing : Map Post → List ℤ → Exec W Error (Map Post × ℕ × ℕ)
  fill_missing result [] = pure (result, length result, 0)
  fill_missing result (id ∷ ids) = do
    response ← h.get_posts (id ∷ ids)
    (all, found) ← lift (take_posts (id ∷ ids) response result [])
    backfill found
    pure (all, length result, length (id ∷ ids))

  unfoldable pub hydrate_live : List ℤ → Exec W Error (Map Post × ℕ × ℕ)
  hydrate_live [] = pure ([], 0, 0)
  hydrate_live (id ∷ ids) = do
    values ← h.redis.mget (map post_key (id ∷ ids))
    (result, missing) ← lift (read_values h.json (id ∷ ids) values [] [])
    fill_missing result missing

  unfoldable pub hydrate : List ℤ → Exec W Error (Map Post × ℕ × ℕ)
  hydrate ids = do live ← without_tombstones (unique ids); hydrate_live live
