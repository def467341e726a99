-- ===== src/Feed/Page.antt =====
-- services/feed-service/internal/feedserver/server.go: `pageStart`, and the page that `GetFeed`
-- cuts out of the ranked posts.
pub mod Gone
pub mod Start
use cascade_feed_ranking_eng.Common.{
  ℕ, ◌+◌, ◌-◌, lt_ℤ, eq_ℤ, ltb, Bool, ◌&&◌, ◌||◌, Option, none, some, List, length, take, drop,
  get_elem?, find_index, if◌then◌else◌,
}
use cascade_feed_ranking_eng.Feed.{RankedPost, unix_milli}
use cascade_feed_ranking_eng.Feed.Float.{Float64}
use cascade_feed_ranking_eng.Feed.Cursor.{Cursor}

module _ (fl : Float64) where
  open fl use {F, lt, eq}

  -- The test of the first loop: the cursor's own post.
  unfoldable pub is_cursor_post : Cursor F → RankedPost F → Bool
  is_cursor_post c item =
      eq_ℤ item.id c.post_id && eq_ℤ (unix_milli item.created_at) c.created_at_unix_ms

  -- The test of the second loop: a post that ranks after the cursor.
  unfoldable pub is_after_cursor : Cursor F → RankedPost F → Bool
  is_after_cursor c item =
      lt item.score c.score
      || (eq item.score c.score && lt_ℤ (unix_milli item.created_at) c.created_at_unix_ms)
      || (eq item.score c.score
          && eq_ℤ (unix_milli item.created_at) c.created_at_unix_ms
          && lt_ℤ item.id c.post_id)

  unfoldable pub page_start : List (RankedPost F) → Option (Cursor F) → ℕ
  page_start ranked none = 0
  page_start ranked (some c) = elim (find_index (is_cursor_post c) ranked) [
    | some i ↦ i + 1
    | none ↦ elim (find_index (is_after_cursor c) ranked) [ some i ↦ i | none ↦ length ranked ]
  ]

  unfoldable pub page_end : List (RankedPost F) → ℕ → ℕ → ℕ
  page_end ranked start page_size =
      if ltb (length ranked) (start + page_size) then length ranked else start + page_size

  -- `ranked[start:end]`
  unfoldable pub page_items : List (RankedPost F) → ℕ → ℕ → List (RankedPost F)
  page_items ranked start end_ = take (end_ - start) (drop start ranked)

  -- The post that the next page's token is made of: `ranked[end-1]`, if the page holds a post and
  -- more follow it.
  unfoldable pub page_last : List (RankedPost F) → ℕ → ℕ → Option (RankedPost F)
  page_last ranked start end_ =
      if ltb end_ (length ranked) && ltb start end_ then get_elem? ranked (end_ - 1) else none
