-- ===== src/Feed/Server.antt =====
-- services/feed-service/internal/feedserver/server.go: the `GetFeed` handler over its four
-- dependencies. `W` is the world that these read and write. Log lines are not modelled, nor is the
-- text of a status: a status is its code.
pub mod Walk
pub mod Answer
pub mod Errors
pub mod Failing
use cascade_feed_ranking_eng.Common.{
  ℕ, ℤ, pos, pos_part, nonpos, lt_ℤ, eq_ℤ, ◌||◌, Option, none, some, List, [], map, Map, Bytes,
  is_empty, Error, Result, ok, err, Exec, pure, raise, lift, reject, on_error, ◌>>=◌, ◌>>◌,
  if◌then◌else◌,
}
use cascade_feed_ranking_eng.Feed.{Post, CandidateSet, Signal, RankedPost, unix_milli}
use cascade_feed_ranking_eng.Feed.Float.{Float64}
use cascade_feed_ranking_eng.Feed.Cursor.{Cursor, Codec, encode, decode}
use cascade_feed_ranking_eng.Feed.Select.{merge_ids, select_posts}
use cascade_feed_ranking_eng.Feed.Page.{page_start, page_end, page_items, page_last}

pub data Code : Type 0 where
  invalid_argument unavailable internal : Code

pub record GetFeedRequest : Type 0 where
  pub user_id : ℤ
  pub page_size : ℤ
  pub page_token : Bytes

pub record FeedItem (F : Type 0) : Type 0 where
  pub post_id : ℤ
  pub author_id : ℤ
  pub content : Bytes
  pub media_url : Bytes
  pub created_at_unix_ms : ℤ
  pub rank_score : F
  pub recency_score : F
  pub engagement_score : F
  pub affinity_score : F

pub record GetFeedResponse (F : Type 0) : Type 0 where
  pub items : List (FeedItem F)
  pub next_page_token : Bytes

-- The Go interfaces CandidateStore, Hydrator, SignalProvider, Ranker and Metrics. The ranker reads
-- the clock of the world; `observe` may be missing.
pub record Server (W F : Type 0) : Type 0 where
  pub load_candidates : ℤ → ℤ → Exec W Error CandidateSet
  pub hydrate : List ℤ → Exec W Error (Map Post × ℕ × ℕ)
  pub load_signals : ℤ → List Post → Exec W Error (Map (Signal F))
  pub rank : List Post → Map (Signal F) → W → List (RankedPost F)
  pub observe : Option (ℕ → ℕ → W → W)
  pub candidate_pool : ℤ
  pub default_page_size : ℤ
  pub max_page_size : ℤ

module _ (fl : Float64) (codec : Codec fl.F) where
  open fl use {F}

  unfoldable pub to_item : RankedPost F → FeedItem F
  to_item item = record {
    post_id = item.id;
    author_id = item.author_id;
    content = item.content;
    media_url = item.media_url;
    created_at_unix_ms = unix_milli item.created_at;
    rank_score = item.score;
    recency_score = item.recency;
    engagement_score = item.engagement;
    affinity_score = item.affinity;
  }

  unfoldable pub parse_token : Bytes → Result Code (Option (Cursor F))
  parse_token token =
      if is_empty token
      then ok none
      else elim (decode fl codec token) [ none ↦ err invalid_argument | some c ↦ ok (some c) ]

  -- The token after a page: empty when nothing follows it.
  unfoldable pub next_token : Option (RankedPost F) → Result Code Bytes
  next_token none = ok []
  next_token (some last) = elim (encode fl codec last.score (unix_milli last.created_at) last.id) [
    | none ↦ err internal
    | some token ↦ ok token
  ]

  -- From `start := pageStart(...)` to the token.
  unfoldable pub respond :
      List (RankedPost F) → Option (Cursor F) → ℕ → Result Code (GetFeedResponse F)
  respond ranked cursor page_size =
      let start = page_start fl ranked cursor in
      let end_ = page_end fl ranked start page_size in
      elim (next_token (page_last fl ranked start end_)) [
        | err code ↦ err code
        | ok token ↦ ok (record {
          items = map to_item (page_items fl ranked start end_);
          next_page_token = token;
        })
      ]

module _ {W F : Type 0} where
  unfoldable pub observe_feed : Server W F → ℕ → ℕ → Exec W Code (Unit {0})
  observe_feed s hits misses w = elim s.observe [
    | none ↦ (ok tt, w)
    | some f ↦ (ok tt, f hits misses w)
  ]

  unfoldable pub ranked_posts :
      Server W F → List Post → Map (Signal F) → Exec W Code (List (RankedPost F))
  ranked_posts s posts signals w = (ok (s.rank posts signals w), w)

  unfoldable pub page_size_of : Server W F → GetFeedRequest → ℤ
  page_size_of s req = if eq_ℤ req.page_size (pos 0) then s.default_page_size else req.page_size

module _ {W : Type 0} (fl : Float64) (codec : Codec fl.F) where
  open fl use {F}

  -- The handler after its arguments are checked.
  unfoldable pub serve_feed :
      Server W F → ℤ → ℤ → Option (Cursor F) → Exec W Code (GetFeedResponse F)
  unfolding ranked_posts observe_feed
  serve_feed s user_id page_size cursor = do
    candidates ← on_error (λ _. unavailable) (s.load_candidates user_id s.candidate_pool)
    (hydrated, hits, misses) ←
        on_error (λ _. unavailable)
          (s.hydrate (merge_ids candidates.normal_ids candidates.celebrity_ids))
    let posts = select_posts candidates hydrated s.candidate_pool
    signals ← on_error (λ _. internal) (s.load_signals user_id posts)
    ranked ← ranked_posts s posts signals
    response ← lift (respond fl codec ranked cursor (pos_part page_size))
    observe_feed s hits misses
    pure response

  unfoldable pub get_feed : Server W F → Option GetFeedRequest → Exec W Code (GetFeedResponse F)
  get_feed s none = raise invalid_argument
  get_feed s (some req) = do
    reject (nonpos req.user_id) invalid_argument
    let page_size = page_size_of s req
    reject (lt_ℤ page_size (pos 1) || lt_ℤ s.max_page_size page_size) invalid_argument
    cursor ← lift (parse_token fl codec req.page_token)
    serve_feed s req.user_id page_size cursor
